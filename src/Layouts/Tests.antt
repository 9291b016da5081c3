-- ===== src/Layouts/Tests.antt =====
-- Runs of the chart layouts on a list of documents.
use ai_trader_api.Base.{◌≡◌, refl, String, Bool, Option, none, some, List, [], ◌∷◌, ◌++◌, find?}
use ai_trader_api.Base.Action.{ok, err}
use ai_trader_api.Base.Collection.{update_first, delete_first}
use ai_trader_api.Layouts.{
  clear, ChartLayout, LayoutView, SaveLayoutDto, LayoutStore, IsLayoutStore, same_layout, get, save,
  blank,
}
use ai_trader_api.Layouts.Register.{Call, get_chart, save_chart, clear_chart, run, step, Registers}
use ai_trader_api.Layouts.Conflicts.{stale_save_is_refused}

abbrev Layout : Type 0
Layout = ChartLayout String

abbrev insert_or_clash : Option Layout → Layout → List Layout → Option (Option Layout) × List Layout
insert_or_clash none d s = (some (some d), s ++ d ∷ [])
insert_or_clash (some e) d s = (none, s)

abbrev upsert_or_miss : Option Layout → List Layout → Option (Option Layout) × List Layout
upsert_or_miss none s = (some none, s)
upsert_or_miss (some d) s = insert_or_clash (find? (same_layout d) s) d s

abbrev update_or_upsert :
    Option Layout
    → (Layout → Bool)
    → (Layout → Layout)
    → Option Layout
    → List Layout
    → Option (Option Layout) × List Layout
update_or_upsert none p f d s = upsert_or_miss d s
update_or_upsert (some e) p f d s = (some (some (f e)), update_first p f s)

abbrev list_layouts : LayoutStore (List Layout) String
list_layouts = record {
  find_one = find?;
  find_one_and_update = λ p f d s. update_or_upsert (find? p s) p f d s;
  delete_one = delete_first;
}

abbrev list_layouts-IsLayoutStore : IsLayoutStore list_layouts
list_layouts-IsLayoutStore = record {
  docs = λ s. s;
  find_one_lem = λ p s. refl;
  updated = λ p f d s e h. rw h (refl, refl);
  missed = λ p f s h. rw h (refl, refl);
  inserted = λ p f d s h k. rw (h, k) (refl, refl);
  duplicate = λ p f d e s h k. rw (h, k) (refl, refl);
  docs-delete_one = λ p s. refl;
}

abbrev same : String → String
same s = s

abbrev first_save : SaveLayoutDto String
first_save = record {
  exchange = "NSE";
  drawings = "trend" ∷ [];
  indicators = [];
  chart_type = none;
  version = none;
}

abbrev saved_view : LayoutView String
saved_view = record {
  symbol = "TCS";
  exchange = "NSE";
  drawings = "trend" ∷ [];
  indicators = [];
  chart_type = none;
  version = 1;
  updated_at = some 7;
}

-- Two saves of the first version, a read, a clear and a read.
abbrev calls : List (Call String)
calls =
    save_chart "u" "TCS" first_save 7
    ∷ save_chart "u" "TCS" first_save 8
    ∷ get_chart "u" "TCS"
    ∷ clear_chart "u" "TCS"
    ∷ get_chart "u" "TCS"
    ∷ []

abbrev no_charts : Registers String
no_charts u k = none

calls_trace :
    run list_layouts same calls []
    ≡ ok saved_view
      ∷ err (record { current_version = 1 })
      ∷ ok saved_view
      ∷ ok (blank "TCS")
      ∷ ok (blank "TCS")
      ∷ []
unfolding run step save get clear
calls_trace = refl

saved_run : (save list_layouts same "u" "TCS" first_save 7 []).0 ≡ ok saved_view
unfolding save
saved_run = refl

stale_save_is_refused_example :
    let s' = (save list_layouts same "u" "TCS" first_save 7 []).1 in
    let (answer, s'') = save list_layouts same "u" "TCS" first_save 8 s' in
    (answer ≡ err (record { current_version = 1 })) × (s'' ≡ s')
stale_save_is_refused_example =
    stale_save_is_refused list_layouts same list_layouts-IsLayoutStore "u" "TCS" first_save 7 []
      saved_view tt saved_run first_save 8 refl
