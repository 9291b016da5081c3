-- ===== src/Layouts/Register.antt =====
-- What chart-layouts.service.ts promises: a register for each user and symbol, which holds the last
-- view and is written only by a save that names the version it holds.
use ai_trader_api.Base.{
  ℕ, ◌+◌, String, Bool, ◌&&◌, Option, none, some, List, [], ◌∷◌, ◌==◌, str_eq, if◌then◌else◌,
  or_else,
}
use ai_trader_api.Base.Action.{Result, ok, err}
use ai_trader_api.Layouts.{
  Conflict, LayoutView, SaveLayoutDto, LayoutStore, blank, or_keep, get, save, clear,
}

-- The calls of the service.
pub data Call (J : Type 0) : Type 0 where
  get_chart clear_chart : (user symbol : String) → Call J
  save_chart : (user symbol : String) → SaveLayoutDto J → (now : ℕ) → Call J

abbrev pub Registers : Type 0 → Type 0
Registers J = String → String → Option (LayoutView J)

-- Which register is meant.
abbrev pub is_at : String → String → String → String → Bool
is_at user symbol u k = str_eq user u && str_eq symbol k

abbrev pub assign :
    {J : Type 0} → String → String → Option (LayoutView J) → Registers J → Registers J
assign user symbol r regs u k = if is_at user symbol u k then r else regs u k

module _ {J : Type 0} (upper : String → String) where
  abbrev pub written : SaveLayoutDto J → ℕ → LayoutView J → LayoutView J
  written dto now v = record v {
    exchange = upper dto.exchange;
    drawings = dto.drawings;
    indicators = dto.indicators;
    chart_type = or_keep dto.chart_type v.chart_type;
    version = v.version + 1;
    updated_at = some now;
  }

  -- A save of one register: its answer, and what the register holds then.
  abbrev pub register_save :
      String
      → SaveLayoutDto J
      → ℕ
      → Option (LayoutView J)
      → Result Conflict (LayoutView J) × Option (LayoutView J)
  register_save key dto now r =
      let v = or_else r (blank key) in
      if v.version == or_else dto.version 0
      then (ok (written dto now v), some (written dto now v))
      else (err (record { current_version = v.version }), r)

  unfoldable pub register_step : Call J → Registers J → Result Conflict (LayoutView J) × Registers J
  register_step (get_chart user symbol) regs =
      (ok (or_else (regs user (upper symbol)) (blank (upper symbol))), regs)
  register_step (clear_chart user symbol) regs =
      (ok (blank (upper symbol)), assign user (upper symbol) none regs)
  register_step (save_chart user symbol dto now) regs =
      let (answer, r) = register_save (upper symbol) dto now (regs user (upper symbol)) in
      (answer, assign user (upper symbol) r regs)

  unfoldable pub run_registers : List (Call J) → Registers J → List (Result Conflict (LayoutView J))
  run_registers [] regs = []
  run_registers (call ∷ calls) regs =
      let (answer, regs') = register_step call regs in answer ∷ run_registers calls regs'

-- The service's calls in turn.
module _ {S J : Type 0} (layouts : LayoutStore S J) (upper : String → String) where
  unfoldable pub step : Call J → S → Result Conflict (LayoutView J) × S
  step (get_chart user symbol) s = (ok (get layouts upper user symbol s), s)
  step (clear_chart user symbol) s =
      let (view, s') = clear layouts upper user symbol s in (ok view, s')
  step (save_chart user symbol dto now) s = save layouts upper user symbol dto now s

  unfoldable pub run : List (Call J) → S → List (Result Conflict (LayoutView J))
  run [] s = []
  run (call ∷ calls) s = let (answer, s') = step call s in answer ∷ run calls s'
