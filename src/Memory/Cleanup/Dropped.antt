-- ===== src/Memory/Cleanup/Dropped.antt =====
-- memory/cleanup.py: the episodes that the expiry drops.
use wastech_orchestrator.Prelude.{
  ℕ, zero, suc, ◌+◌, ◌≤◌, Bool, false, true, not, ◌||◌, filter, filter-In, In-filter, map, In,
  contains-In, contains, String, List, [], ◌∷◌, length, str_eq, eq_iff, ◌≡◌, ◌≢◌, refl, sym, ap,
  subst, ◌∙◌, ◌⊎◌, inl, inr, arith, Bool-cases,
}
use wastech_orchestrator.Prelude.Json.{Fields}
use wastech_orchestrator.Memory.Cleanup.Passes.{episode_id, first, oldest_first, insert_episode}

-- No two episodes of the file have the same identifier.
abbrev pub AreApart : List Fields → Type 0
AreApart [] = Unit
AreApart (row ∷ rows) =
    ((other : Fields) → In other rows → episode_id row ≢ episode_id other) × AreApart rows

-- How many of the rows are chosen, of all, by either of two tests, and of rows that are apart, by one
-- identifier.
length-filter_split :
    (p : Fields → Bool) (rows : List Fields)
    → length rows ≡ length (filter (λ r. not (p r)) rows) + length (filter p rows)
length-filter_split p [] = refl
length-filter_split p (r ∷ rows) = ground (arith, length-filter_split p rows)

length-filter_or :
    (p q : Fields → Bool) (rows : List Fields)
    → length (filter (λ r. p r || q r) rows) ≤ length (filter p rows) + length (filter q rows)
length-filter_or p q [] = omega arith
length-filter_or p q (r ∷ rows) = ground (arith, length-filter_or p q rows)

filter-nothing :
    (p : Fields → Bool) (rows : List Fields)
    → ((r : Fields) → In r rows → p r ≡ false)
    → length (filter p rows) ≡ 0
filter-nothing p [] h = refl
filter-nothing p (r ∷ rows) h =
    ground (arith, h r (inl refl), filter-nothing p rows (λ x i. h x (inr i)))

length-filter_id :
    (id : String) (rows : List Fields)
    → AreApart rows
    → length (filter (λ r. str_eq id (episode_id r)) rows) ≤ 1
length-filter_id id [] h = omega arith
length-filter_id id (row ∷ rows) (h, rest) = elim (Bool-cases (str_eq id (episode_id row))) [
  | inl e ↦
      let others : length (filter (λ r. str_eq id (episode_id r)) rows) ≡ 0 =
        filter-nothing (λ r. str_eq id (episode_id r)) rows
          (λ other i. differs other i ((eq_iff id (episode_id row)).0 e)) in
      rw e (omega (arith, others))
  | inr e ↦ rw e (length-filter_id id rows rest)
]
  where
    differs :
        (other : Fields)
        → In other rows
        → id ≡ episode_id row
        → str_eq id (episode_id other) ≡ false
    differs other i same = elim (Bool-cases (str_eq id (episode_id other))) [
      | inr f ↦ f
      | inl f ↦ absurd (h other i (sym same ∙ (eq_iff id (episode_id other)).0 f))
    ]

-- The rows that have one of the identifiers are at most as many as these.
length-filter_ids :
    (gone : List String) (rows : List Fields)
    → AreApart rows
    → length (filter (λ r. contains gone (episode_id r)) rows) ≤ length gone
length-filter_ids [] rows h = omega (arith, filter-nothing (λ r. false) rows (λ r i. refl))
length-filter_ids (id ∷ gone) rows h = omega (
  arith,
  length-filter_or (λ r. str_eq id (episode_id r)) (λ r. contains gone (episode_id r)) rows,
  length-filter_id id rows h,
  length-filter_ids gone rows h,
)

abbrev pub kept_of : List Fields → List Fields → List Fields
kept_of dropped rows = filter (λ row. not (contains (map episode_id dropped) (episode_id row))) rows

length-ids : (dropped : List Fields) → length (map episode_id dropped) ≡ length dropped
length-ids [] = refl
length-ids (r ∷ rows) = ground (arith, length-ids rows)

-- As many rows as are dropped, at most, are no longer there.
pub length-kept :
    (dropped rows : List Fields)
    → AreApart rows
    → length rows ≤ length (kept_of dropped rows) + length dropped
length-kept dropped rows h = omega (
  arith,
  length-filter_split (λ r. contains (map episode_id dropped) (episode_id r)) rows,
  length-filter_ids (map episode_id dropped) rows h,
  length-ids dropped,
)

-- A row that is none of those that are dropped is kept, where rows are apart.
same_id :
    (rows : List Fields) (a b : Fields)
    → AreApart rows
    → In a rows
    → In b rows
    → episode_id a ≡ episode_id b
    → a ≡ b
same_id [] a b h i j e = absurd i
same_id (row ∷ rows) a b h (inl p) (inl q) e = p ∙ sym q
same_id (row ∷ rows) a b (h, rest) (inl p) (inr j) e = absurd (h b j (ap episode_id (sym p) ∙ e))
same_id (row ∷ rows) a b (h, rest) (inr i) (inl q) e =
    absurd (h a i (ap episode_id (sym q) ∙ sym e))
same_id (row ∷ rows) a b (h, rest) (inr i) (inr j) e = same_id rows a b rest i j e

In-ids :
    (dropped : List Fields) (id : String)
    → In id (map episode_id dropped)
    → (row : Fields) × In row dropped × (episode_id row ≡ id)
In-ids [] id i = absurd i
In-ids (r ∷ rows) id (inl e) = (r, inl refl, sym e)
In-ids (r ∷ rows) id (inr i) = let (row, j, e) = In-ids rows id i in (row, inr j, e)

pub In-kept :
    (dropped rows : List Fields) (row : Fields)
    → AreApart rows
    → ((r : Fields) → In r dropped → In r rows)
    → In row rows
    → ¬ (In row dropped)
    → In row (kept_of dropped rows)
In-kept dropped rows row h within i out =
    filter-In (λ r. not (contains (map episode_id dropped) (episode_id r))) rows row i
      (elim (Bool-cases (contains (map episode_id dropped) (episode_id row))) [
        | inr e ↦ rw e refl
        | inl e ↦
            let (r, j, same) = In-ids dropped (episode_id row) (contains-In _ (episode_id row) e) in
            absurd (out (subst (λ x. In x dropped) (same_id rows r row h (within r j) i same) j))
      ])

-- What is taken of the oldest rows is among the rows.
In-insert_episode :
    (x : Fields) (rows : List Fields) (r : Fields)
    → In r (insert_episode x rows)
    → (r ≡ x) ⊎ In r rows
unfolding insert_episode
In-insert_episode x [] r i = i
In-insert_episode x (y ∷ rows) r i = ground (arith, i, In-insert_episode x rows r)

In-oldest_first : (rows : List Fields) (r : Fields) → In r (oldest_first rows) → In r rows
unfolding oldest_first
In-oldest_first [] r i = absurd i
In-oldest_first (x ∷ rows) r i = elim (In-insert_episode x (oldest_first rows) r i) [
  | inl e ↦ inl e
  | inr j ↦ inr (In-oldest_first rows r j)
]

In-first : (n : ℕ) (rows : List Fields) (r : Fields) → In r (first n rows) → In r rows
In-first zero rows r i = absurd i
In-first (suc n) [] r i = absurd i
In-first (suc n) (x ∷ rows) r (inl e) = inl e
In-first (suc n) (x ∷ rows) r (inr i) = inr (In-first n rows r i)

pub length-first : (n : ℕ) (rows : List Fields) → length (first n rows) ≤ n
length-first zero rows = omega arith
length-first (suc n) [] = omega arith
length-first (suc n) (x ∷ rows) = omega (arith, length-first n rows)

-- What is taken of the rows that a test chose, the oldest first, are rows that it chose.
pub In-taken :
    (p : Fields → Bool) (n : ℕ) (rows : List Fields) (r : Fields)
    → In r (first n (oldest_first (filter p rows)))
    → In r rows × (p r ≡ true)
In-taken p n rows r i =
    In-filter p rows r
      (In-oldest_first (filter p rows) r (In-first n (oldest_first (filter p rows)) r i))
