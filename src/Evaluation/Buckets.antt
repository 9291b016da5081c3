-- ===== src/Evaluation/Buckets.antt =====
-- eval.ts: what `bucketBy` counts.
use ai_trader_api.Base.{
  ℕ, ◌≡◌, refl, sym, ap, ◌∙◌, ◌+◌, ◌≤◌, inl, inr, String, Bool, some, List, [], ◌∷◌, ◌++◌, ltb,
  str_eq, or_else, length, filter, map, All, All-mono, arith, Bool-cases, Option-cases, eq_iff,
  length-append,
}
use mathlib.Core.List.{append-nil, append_assoc}
use ai_trader_api.Base.Dict.{
  Dict, lookup, insert, HasUniqueKeys, lookup-insert, insert-HasUniqueKeys, total, weight_of,
  total-insert,
}
use ai_trader_api.Base.Double.{Double}
use ai_trader_api.Evaluation.{
  SignalOutcome, Bucket, group_from, bucket_of, insert_bucket, sort_buckets, bucket_by,
}

abbrev pub sum_trades : {N : Type 0} → List (Bucket N) → ℕ
sum_trades [] = 0
sum_trades (b ∷ bs) = b.trades + sum_trades bs

-- The first bucket is the largest, and so on.
abbrev pub IsDescending : {N : Type 0} → List (Bucket N) → Type 0
IsDescending [] = Unit
IsDescending (b ∷ bs) = All (λ c. c.trades ≤ b.trades) bs × IsDescending bs

module _ {A : Type 0} (key_fn : A → String) where
  abbrev pub has_key : String → A → Bool
  has_key k e = str_eq (key_fn e) k

  abbrev items_of : String → Dict (List A) → List A
  items_of k d = or_else (lookup k d) []

  abbrev sizes : Dict (List A) → ℕ
  sizes = total (λ k items. length items)

  group_from-lookup :
      (k : String) (es : List A) (d : Dict (List A))
      → items_of k (group_from key_fn d es) ≡ items_of k d ++ filter (has_key k) es
  unfolding group_from
  group_from-lookup k [] d = sym (append-nil (items_of k d))
  group_from-lookup k (e ∷ es) d =
      let items = items_of (key_fn e) d ++ e ∷ [] in
      group_from-lookup k es (insert (key_fn e) items d)
      ∙ rw (lookup-insert (key_fn e) k items d) (elim (Bool-cases (has_key k e)) [
        | inr off ↦ rw off refl
        | inl on ↦
            let same : key_fn e ≡ k = ground (arith, eq_iff (key_fn e) k) in
            rw on (
              append_assoc (items_of (key_fn e) d) (e ∷ []) (filter (has_key k) es)
              ∙ ap (λ j. items_of j d ++ e ∷ filter (has_key k) es) same)
      ])

  group_from-HasUniqueKeys :
      (es : List A) (d : Dict (List A)) → HasUniqueKeys d → HasUniqueKeys (group_from key_fn d es)
  unfolding group_from
  group_from-HasUniqueKeys [] d h = h
  group_from-HasUniqueKeys (e ∷ es) d h =
      group_from-HasUniqueKeys es _ (insert-HasUniqueKeys _ _ d h)

  size-items :
      (k : String) (d : Dict (List A))
      → weight_of (λ k items. length items) k (lookup k d) ≡ length (items_of k d)
  size-items k d = elim (Option-cases (lookup k d)) [
    | inl e ↦ rw e refl
    | inr (items, e) ↦ rw e refl
  ]

  group_from-sizes :
      (es : List A) (d : Dict (List A)) → sizes (group_from key_fn d es) ≡ sizes d + length es
  unfolding group_from
  group_from-sizes [] d = omega arith
  group_from-sizes (e ∷ es) d =
      let items = items_of (key_fn e) d ++ e ∷ [] in
      omega (
        arith,
        group_from-sizes es (insert (key_fn e) items d),
        total-insert (λ k items. length items) (key_fn e) items d,
        length-append (items_of (key_fn e) d) (e ∷ []),
        size-items (key_fn e) d,
      )

-- Every entry of a map is found under its key.
entries-found : {V : Type 0} (d : Dict V) → HasUniqueKeys d → All (λ e. lookup e.0 d ≡ some e.1) d
entries-found [] h = tt
entries-found ((j, v) ∷ d) h = (
  ground (arith, eq_iff j j),
  All-mono d (λ e found. ground (arith, eq_iff j e.0, found, h.0)) (entries-found d h.1),
)

module _ {N : Type 0} where
  insert_bucket-sum :
      (b : Bucket N) (bs : List (Bucket N))
      → sum_trades (insert_bucket b bs) ≡ b.trades + sum_trades bs
  insert_bucket-sum b [] = omega arith
  insert_bucket-sum b (c ∷ cs) = ground (arith, insert_bucket-sum b cs)

  sort_buckets-sum : (bs : List (Bucket N)) → sum_trades (sort_buckets bs) ≡ sum_trades bs
  sort_buckets-sum [] = refl
  sort_buckets-sum (b ∷ bs) =
      insert_bucket-sum b (sort_buckets bs) ∙ ap (λ n. b.trades + n) (sort_buckets-sum bs)

  module _ (P : Bucket N → Type 0) where
    insert_bucket-All :
        (b : Bucket N) (bs : List (Bucket N)) → P b → All P bs → All P (insert_bucket b bs)
    insert_bucket-All b [] h hs = (h, tt)
    insert_bucket-All b (c ∷ cs) h hs = elim (Bool-cases (ltb b.trades c.trades)) [
      | inl e ↦ rw e (hs.0, insert_bucket-All b cs h hs.1)
      | inr e ↦ rw e (h, hs)
    ]

    sort_buckets-All : (bs : List (Bucket N)) → All P bs → All P (sort_buckets bs)
    sort_buckets-All [] h = tt
    sort_buckets-All (b ∷ bs) h =
        insert_bucket-All b (sort_buckets bs) h.0 (sort_buckets-All bs h.1)

  insert_bucket-IsDescending :
      (b : Bucket N) (bs : List (Bucket N)) → IsDescending bs → IsDescending (insert_bucket b bs)
  insert_bucket-IsDescending b [] h = (tt, tt)
  insert_bucket-IsDescending b (c ∷ cs) h = elim (Bool-cases (ltb b.trades c.trades)) [
    | inl e ↦ rw e (
      insert_bucket-All (λ x. x.trades ≤ c.trades) b cs (ground arith) h.0,
      insert_bucket-IsDescending b cs h.1,
    )
    | inr e ↦
        let below : c.trades ≤ b.trades = ground arith in
        rw e ((below, All-mono cs (λ x le. omega (arith, le, below)) h.0), h)
  ]

  sort_buckets-IsDescending : (bs : List (Bucket N)) → IsDescending (sort_buckets bs)
  sort_buckets-IsDescending [] = tt
  sort_buckets-IsDescending (b ∷ bs) =
      insert_bucket-IsDescending b (sort_buckets bs) (sort_buckets-IsDescending bs)

module _ {N : Type 0} (num : Double N) {A : Type 0} (outcome : A → SignalOutcome N) where
  buckets-sum :
      (d : Dict (List A))
      → sum_trades (map (bucket_of num outcome) d) ≡ total (λ k items. length items) d
  buckets-sum [] = refl
  buckets-sum ((k, items) ∷ d) = ap (λ n. length items + n) (buckets-sum d)

  buckets-All :
      (P : Bucket N → Type 0) (d : Dict (List A))
      → All (λ e. P (bucket_of num outcome e)) d
      → All P (map (bucket_of num outcome) d)
  buckets-All P [] h = tt
  buckets-All P (e ∷ d) h = (h.0, buckets-All P d h.1)

  entry-count :
      (closed : List A) (key_fn : A → String) (e : String × List A)
      → lookup e.0 (group_from key_fn [] closed) ≡ some e.1
      → length e.1 ≡ length (filter (has_key key_fn e.0) closed)
  entry-count closed key_fn e found =
      let items : or_else (lookup e.0 (group_from key_fn [] closed)) []
          ≡ filter (has_key key_fn e.0) closed =
        group_from-lookup key_fn e.0 closed [] in
      ap length (rw found at items)

  -- The buckets of the closed signals come largest first; their trades add up to the number of
  -- signals; and each counts the signals of its key.
  pub bucket_by_lem :
      (closed : List A) (key_fn : A → String)
      → let buckets = bucket_by num outcome closed key_fn in
        IsDescending buckets
        × (sum_trades buckets ≡ length closed)
        × All (λ b. b.trades ≡ length (filter (has_key key_fn b.key) closed)) buckets
  unfolding bucket_by
  bucket_by_lem closed key_fn =
      let d = group_from key_fn [] closed in
      let exact =
        All-mono d (entry-count closed key_fn)
          (entries-found d (group_from-HasUniqueKeys key_fn closed [] tt)) in
      (
        sort_buckets-IsDescending (map (bucket_of num outcome) d),
        omega (
          arith,
          sort_buckets-sum (map (bucket_of num outcome) d),
          buckets-sum d,
          group_from-sizes key_fn closed [],
        ),
        sort_buckets-All _ (map (bucket_of num outcome) d) (buckets-All _ d exact),
      )
