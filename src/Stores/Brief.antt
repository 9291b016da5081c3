-- ===== src/Stores/Brief.antt =====
-- src/brief/brief.service.ts: the morning brief of each day.
use ai_trader_api.Base.{
  ◌≡◌, refl, sym, subst, ◌≢◌, ap, String, Bool, true, false, Option, none, some, List, [], ◌∷◌,
  str_eq, or_else, if◌then◌else◌, find?, any, arith, eq_iff,
}
use ai_trader_api.Base.Action.{Result, ok, err, Action}
use ai_trader_api.Base.Collection.{Collection, IsLawful, upsert}
use ai_trader_api.Stores.Upserts.{find_one-replace, upsert-replace}

module _ (J : Type 0) where
  -- `StoreBriefDto`.
  pub record StoreBriefDto : Type 0 where
    pub date : Option String
    pub generated_at : Option String
    pub market_read : Option J
    pub global_cues : Option (List J)
    pub narrative : Option String
    pub candidates : Option (List J)
    pub disclaimer : Option String

  -- `MorningBrief`.
  pub record MorningBrief : Type 0 where
    pub date : String
    pub generated_at : String
    pub market_read : J
    pub global_cues : List J
    pub narrative : String
    pub candidates : List J
    pub disclaimer : String

pub data BriefError : Type 0 where
  missing_date no_brief : BriefError

module _ {J : Type 0} where
  abbrev pub has_date : String → MorningBrief J → Bool
  has_date date b = str_eq b.date date

  -- The unique index.
  abbrev pub same_date : MorningBrief J → MorningBrief J → Bool
  same_date b d = str_eq b.date d.date

  -- `empty` is `{}`; `now` is the text of the time.
  module _ (empty : J) (now : String) where
    abbrev pub brief_of : String → StoreBriefDto J → MorningBrief J
    brief_of date payload = record {
      date = date;
      generated_at = or_else payload.generated_at now;
      market_read = or_else payload.market_read empty;
      global_cues = or_else payload.global_cues [];
      narrative = or_else payload.narrative "";
      candidates = or_else payload.candidates [];
      disclaimer = or_else payload.disclaimer "";
    }

    module _ {S : Type 0} (briefs : Collection S (MorningBrief J)) where
      abbrev pub replace_brief : MorningBrief J → Action BriefError S (MorningBrief J)
      replace_brief b s =
          let (saved, s') = upsert briefs (has_date b.date) (λ _. b) b s in (ok saved, s')

      abbrev pub store_at : Option String → StoreBriefDto J → Action BriefError S (MorningBrief J)
      store_at none payload s = (err missing_date, s)
      store_at (some date) payload s =
          if str_eq date "" then (err missing_date, s) else replace_brief (brief_of date payload) s

      -- `store`.
      pub store : StoreBriefDto J → Action BriefError S (MorningBrief J)
      store payload = store_at payload.date payload

  -- `latest`; `newest` is `findOne().sort({ date: -1 })`.
  pub latest : {S : Type 0} → (S → Option (MorningBrief J)) → S → Result BriefError (MorningBrief J)
  latest newest s = elim (newest s) [ none ↦ err no_brief | some b ↦ ok b ]

any-same_date :
    {J : Type 0} (b : MorningBrief J) (docs : List (MorningBrief J))
    → find? (has_date b.date) docs ≡ none
    → any (same_date b) docs ≡ false
any-same_date b [] h = refl
any-same_date b (x ∷ docs) h =
    ground (arith, eq_iff x.date b.date, eq_iff b.date x.date, any-same_date b docs)

-- Storing a brief of a date answers the brief, and a query by the date finds it afterwards, also where
-- the day had another one before.
pub find-store :
    {J S : Type 0} (empty : J) (now : String) (briefs : Collection S (MorningBrief J))
    (law : IsLawful same_date briefs) (payload : StoreBriefDto J) (date : String) (s : S)
    → payload.date ≡ some date
    → date ≢ ""
    → let (r, s') = store empty now briefs payload s in
      (r ≡ ok (brief_of empty now date payload))
      × (briefs.find_one (has_date date) s' ≡ some (brief_of empty now date payload))
unfolding store
find-store empty now briefs law payload date s dated given =
    let b = brief_of empty now date payload in
    let named : str_eq date date ≡ true = ground (arith, eq_iff date date) in
    let is_given : str_eq date "" ≡ false = ground (arith, eq_iff date "") in
    subst
      (λ o.
        let (r, s') = store_at empty now briefs o payload s in
        (r ≡ ok b) × (briefs.find_one (has_date date) s' ≡ some b))
      (sym dated)
      (rw is_given (
        ap ok (upsert-replace same_date briefs law (has_date date) b named s),
        find_one-replace same_date briefs law (has_date date) b named s
            (any-same_date b (law.docs s)),
      ))
