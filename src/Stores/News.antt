-- ===== src/Stores/News.antt =====
-- src/news/news.service.ts: the one stored news result.
use ai_trader_api.Base.{
  ℕ, ◌≡◌, refl, String, Bool, true, false, Option, none, some, List, [], ◌∷◌, str_eq, or_else,
  find?, arith, eq_iff, any,
}
use ai_trader_api.Base.Collection.{Collection, IsLawful, upsert}
use ai_trader_api.Stores.Upserts.{find_one-replace}

module _ (J : Type 0) where
  -- `StoreNewsResultDto`.
  pub record StoreNewsResultDto : Type 0 where
    pub articles : Option (List J)
    pub count : Option ℕ
    pub degraded : Option Bool
    pub degraded_reason : Option String

  -- `NewsResult`.
  pub record NewsResult : Type 0 where
    pub key : String
    pub articles : List J
    pub count : ℕ
    pub degraded : Bool
    pub degraded_reason : Option String

  -- What `latest` answers.
  pub record NewsView : Type 0 where
    pub articles : List J
    pub count : ℕ
    pub degraded : Bool
    pub degraded_reason : Option String

module _ {J : Type 0} where
  -- `LATEST`.
  abbrev pub is_latest : NewsResult J → Bool
  is_latest d = str_eq d.key "latest"

  -- The unique index.
  abbrev pub same_key : NewsResult J → NewsResult J → Bool
  same_key d e = str_eq d.key e.key

  abbrev pub result_of_payload : StoreNewsResultDto J → NewsResult J
  result_of_payload payload = record {
    key = "latest";
    articles = or_else payload.articles [];
    count = or_else payload.count 0;
    degraded = or_else payload.degraded false;
    degraded_reason = payload.degraded_reason;
  }

  abbrev pub view_of_result : Option (NewsResult J) → NewsView J
  view_of_result none = record {
    articles = [];
    count = 0;
    degraded = true;
    degraded_reason = some "news_unavailable";
  }
  view_of_result (some d) = record {
    articles = d.articles;
    count = d.count;
    degraded = d.degraded;
    degraded_reason = d.degraded_reason;
  }

  module _ {S : Type 0} (news : Collection S (NewsResult J)) where
    -- `store`; the update sets every field of the schema.
    pub store : StoreNewsResultDto J → S → NewsResult J × S
    store payload =
        upsert news is_latest (λ d. result_of_payload payload) (result_of_payload payload)

    -- `latest`.
    pub latest : S → NewsView J
    latest s = view_of_result (news.find_one is_latest s)

any-same_key :
    {J : Type 0} (d : NewsResult J) (docs : List (NewsResult J))
    → d.key ≡ "latest"
    → find? is_latest docs ≡ none
    → any (same_key d) docs ≡ false
any-same_key d [] named h = refl
any-same_key d (x ∷ docs) named h =
    ground (arith, eq_iff x.key "latest", eq_iff d.key x.key, any-same_key d docs)

-- After a result is stored, whatever was there before, `latest` answers its articles, count and state.
pub latest-store :
    {J S : Type 0} (news : Collection S (NewsResult J)) (law : IsLawful same_key news)
    (payload : StoreNewsResultDto J) (s : S)
    → latest news (store news payload s).1 ≡ view_of_result (some (result_of_payload payload))
unfolding latest store
latest-store news law payload s =
    let d = result_of_payload payload in
    rw
      (find_one-replace same_key news law is_latest d (ground (arith, eq_iff "latest" "latest")) s
        (any-same_key d (law.docs s) refl))
      refl
