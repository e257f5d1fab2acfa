-- ===== src/Integrations/Browse/Chips.antt =====
-- The count of a chip is what the chip would show: frontend/src/pages/Integrations.tsx.
use mathlib.Core.List.{Memᴰ}
use agent_os_test.Prelude.{
  ◌≡◌, refl, ap, ◌↔◌, ◌<◌, ◌+◌, inl, inr, ℕ, suc, Bool, ◌&&◌, true, Option, none, some, List, [],
  ◌∷◌, Text, StrictEq, ◌==◌, filter, length, lookup, insert, lookup-insert, Bool-cases, Mem_filter,
  ltb, ltb→lt, lt_ltb, arith, if◌then◌else◌,
}
use agent_os_test.Types.Connectors.{ConnectorCategory}
use agent_os_test.Hub.{UnifiedConnector, StatusBucket, status_bucket}
use agent_os_test.Hub.Groups.{Counts, bump, count_on, bucket_counts, category_order}
use agent_os_test.Integrations.Browse.{
  category_has_eq, bucket_has_eq, Choice, in_bucket, has_category, count_or_zero, tally_category,
  tally_categories, count_of, sum, searched, counts, category_counts, filtered, bucket_chip,
  category_chip, category_chips,
}

filter-filter {ℓ} :
    {A : Type ℓ} (p q : A → Bool) (xs : List A)
    → filter (λ x. p x && q x) xs ≡ filter p (filter q xs)
filter-filter p q [] = refl
filter-filter p q (x ∷ xs) = ground (arith, filter-filter p q xs)

eq_sym {ℓ} : {A : Type ℓ} ⦃e : StrictEq A⦄ (a b : A) → (a == b) ≡ (b == a)
eq_sym ⦃e⦄ a b = ground (arith, e.is_same_iff a b, e.is_same_iff b a)

count_of-bump :
    (b c : StatusBucket) (k : Counts)
    → count_of b (bump c k) ≡ (if c == b then suc (count_of b k) else count_of b k)
count_of-bump b c k = ground (arith, bucket_has_eq.is_same_iff c b)

count_of-count_on :
    (b : StatusBucket) (l : List UnifiedConnector) (k : Counts)
    → count_of b (count_on l k) ≡ length (filter (in_bucket (some b)) l) + count_of b k
count_of-count_on b [] k = omega arith
count_of-count_on b (c ∷ l) k =
    ground
      (arith, count_of-count_on b l (bump (status_bucket c) k), count_of-bump b (status_bucket c) k)

lookup-tally_category :
    (category : ConnectorCategory) (bucket : Option StatusBucket) (c : UnifiedConnector)
    (out : List (ConnectorCategory × ℕ))
    → count_or_zero (lookup category (tally_category bucket c out)) ≡ (
        if in_bucket bucket c && has_category (some category) c
        then suc (count_or_zero (lookup category out))
        else count_or_zero (lookup category out))
lookup-tally_category category bucket c out = elim (Bool-cases (in_bucket bucket c)) [
  | inr away ↦ rw away
  | inl within ↦
      rw
        (
          within,
          lookup-insert category c.entry.category (count_or_zero (lookup c.entry.category out) + 1)
              out,
          eq_sym category c.entry.category,
        )
        same_key
]
  where
    same_key :
        count_or_zero (
          if c.entry.category == category
          then some (count_or_zero (lookup c.entry.category out) + 1)
          else lookup category out)
        ≡ (if c.entry.category == category
            then suc (count_or_zero (lookup category out))
            else count_or_zero (lookup category out))
    same_key = elim (Bool-cases (c.entry.category == category)) [
      | inl same ↦
          let p : c.entry.category ≡ category =
            (category_has_eq.is_same_iff c.entry.category category).0 same in
          rw (same, p) (omega arith)
      | inr differs ↦ rw differs
    ]

lookup-tally :
    (category : ConnectorCategory) (bucket : Option StatusBucket) (l : List UnifiedConnector)
    (out : List (ConnectorCategory × ℕ))
    → count_or_zero (lookup category (tally_categories bucket l out))
      ≡ length (filter (λ c. in_bucket bucket c && has_category (some category) c) l)
        + count_or_zero (lookup category out)
lookup-tally category bucket [] out = omega arith
lookup-tally category bucket (c ∷ l) out = ground (
  arith,
  lookup-tally category bucket l (tally_category bucket c out),
  lookup-tally_category category bucket c out,
)

sum-insert :
    (category : ConnectorCategory) (out : List (ConnectorCategory × ℕ))
    → sum (insert category (count_or_zero (lookup category out) + 1) out) ≡ suc (sum out)
unfolding insert lookup
sum-insert category [] = omega arith
sum-insert category ((first, n) ∷ out) = ground (arith, sum-insert category out)

sum-tally_category :
    (bucket : Option StatusBucket) (c : UnifiedConnector) (out : List (ConnectorCategory × ℕ))
    → sum (tally_category bucket c out) ≡ (if in_bucket bucket c then suc (sum out) else sum out)
sum-tally_category bucket c out = ground (arith, sum-insert c.entry.category out)

sum-tally :
    (bucket : Option StatusBucket) (l : List UnifiedConnector) (out : List (ConnectorCategory × ℕ))
    → sum (tally_categories bucket l out) ≡ length (filter (in_bucket bucket) l) + sum out
sum-tally bucket [] out = omega arith
sum-tally bucket (c ∷ l) out =
    ground
      (arith, sum-tally bucket l (tally_category bucket c out), sum-tally_category bucket c out)

lookup_empty : (category : ConnectorCategory) → count_or_zero (lookup category []) ≡ 0
unfolding lookup
lookup_empty category = refl

order_has : (category : ConnectorCategory) → Memᴰ category category_order
order_has ConnectorCategory.ai = Memᴰ.head refl
order_has ConnectorCategory.automation = Memᴰ.tail (Memᴰ.head refl)
order_has ConnectorCategory.productivity = Memᴰ.tail (Memᴰ.tail (Memᴰ.head refl))
order_has ConnectorCategory.google = Memᴰ.tail (Memᴰ.tail (Memᴰ.tail (Memᴰ.head refl)))
order_has ConnectorCategory.developer =
    Memᴰ.tail (Memᴰ.tail (Memᴰ.tail (Memᴰ.tail (Memᴰ.head refl))))
order_has ConnectorCategory.data_value =
    Memᴰ.tail (Memᴰ.tail (Memᴰ.tail (Memᴰ.tail (Memᴰ.tail (Memᴰ.head refl)))))
order_has ConnectorCategory.other =
    Memᴰ.tail (Memᴰ.tail (Memᴰ.tail (Memᴰ.tail (Memᴰ.tail (Memᴰ.tail (Memᴰ.head refl))))))

abbrev none_yet : Counts
none_yet = record {
  of_connected = 0;
  of_needs_verification = 0;
  of_needs_setup = 0;
  of_not_built = 0;
}

count_of-none_yet : (b : StatusBucket) → count_of b none_yet ≡ 0
count_of-none_yet b = ground arith

filter_always {ℓ} :
    {A : Type ℓ} (p : A → Bool) (xs : List A) → filter (λ x. p x && true) xs ≡ filter p xs
filter_always p [] = refl
filter_always p (x ∷ xs) = ground (arith, filter_always p xs)

module _ (lower : Text → Text) (connectors : List UnifiedConnector) where
  -- What is shown once the chip is chosen.
  abbrev pub shown_by_bucket : Option StatusBucket → Choice → List UnifiedConnector
  shown_by_bucket b k = filtered lower connectors (record k { bucket = b })

  abbrev pub shown_by_category : Option ConnectorCategory → Choice → List UnifiedConnector
  shown_by_category category k = filtered lower connectors (record k { category = category })

  bucket_chip-length :
      (b : Option StatusBucket) (k : Choice)
      → bucket_chip lower connectors b k ≡ length (shown_by_bucket b k)
  unfolding bucket_chip counts filtered searched bucket_counts
  bucket_chip-length none k = refl
  bucket_chip-length (some b) k =
      let within = searched lower connectors k.search in
      let counted = count_of-count_on b (filter (has_category k.category) within) none_yet in
      let same = filter-filter (in_bucket (some b)) (has_category k.category) within in
      ground (arith, count_of-none_yet b, counted, ap length same)

  category_chip-length :
      (category : Option ConnectorCategory) (k : Choice)
      → category_chip lower connectors category k ≡ length (shown_by_category category k)
  unfolding category_chip category_counts filtered searched
  category_chip-length none k =
      let within = searched lower connectors k.search in
      ground (arith, sum-tally k.bucket within [], filter_always (in_bucket k.bucket) within)
  category_chip-length (some category) k =
      let within = searched lower connectors k.search in
      omega (arith, lookup-tally category k.bucket within [], lookup_empty category)

  has_chip :
      (k : Choice) (category : ConnectorCategory)
      → Memᴰ category (category_chips lower connectors k)
        ↔ (0 < length (shown_by_category (some category) k))
  unfolding category_chips category_chip
  has_chip k category =
      let counted = category_chip-length (some category) k in
      let (there, back) =
        Mem_filter (λ category. ltb 0 (category_chip lower connectors (some category) k))
          category_order category in
      (
        λ m.
            let positive =
              ltb→lt 0 (category_chip lower connectors (some category) k) (there m).1 in
            omega arith,
        λ h. back (
          order_has category,
          lt_ltb 0 (category_chip lower connectors (some category) k) (omega arith),
        ),
      )

  -- The count of every chip, of a bucket, a category or all of them, is the number of connectors
  -- that are shown once it is chosen while the other choices stay. A category has a chip exactly
  -- if it would show something.
  pub chips-length :
      (k : Choice)
      → ((b : Option StatusBucket)
          → bucket_chip lower connectors b k ≡ length (shown_by_bucket b k))
        × ((category : Option ConnectorCategory)
            → category_chip lower connectors category k ≡ length (shown_by_category category k))
        × ((category : ConnectorCategory)
            → Memᴰ category (category_chips lower connectors k)
              ↔ (0 < length (shown_by_category (some category) k)))
  chips-length k =
      (λ b. bucket_chip-length b k, λ category. category_chip-length category k, has_chip k)
