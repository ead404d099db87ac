-- ===== src/Decomposition/Index.antt =====
-- core/decomposition.py: the entries of `subtasks/index.json`, and the update of one of them.
use wastech_orchestrator.Prelude.{
  ◌≡◌, subst, some_inj, true, false, Option, none, some, String, List, [], ◌∷◌, arith, Bool-cases,
  Option-cases, inl, inr, if◌then◌else◌,
}
use wastech_orchestrator.Prelude.Int.{ℤ, eq_int}
use wastech_orchestrator.Decomposition.{SubtaskSpec}

pub data SubtaskStatus : Type 0 where
  pending committed : SubtaskStatus

pub record IndexEntry : Type 0 where
  pub order : ℤ
  pub slug : String
  pub title : String
  pub depends_on : List ℤ
  pub status : SubtaskStatus
  pub commit_sha : Option String

unfoldable pub index_entry : SubtaskSpec → IndexEntry
index_entry spec = record {
  order = spec.order;
  slug = spec.slug;
  title = spec.title;
  depends_on = spec.depends_on;
  status = pending;
  commit_sha = none;
}

abbrev changed : SubtaskStatus → Option String → IndexEntry → IndexEntry
changed status none entry = record entry { status = status }
changed status (some sha) entry = record entry { status = status; commit_sha = some sha }

-- None is the KeyError of an order that no entry has.
unfoldable pub update_entries :
    ℤ → SubtaskStatus → Option String → List IndexEntry → Option (List IndexEntry)
update_entries order status sha [] = none
update_entries order status sha (entry ∷ entries) = elim (eq_int entry.order order) [
  | true ↦ some (changed status sha entry ∷ entries)
  | false ↦ elim (update_entries order status sha entries) [
    | none ↦ none
    | some rest ↦ some (entry ∷ rest)
  ]
]

-- The first entry with an order.
unfoldable pub entry_of : ℤ → List IndexEntry → Option IndexEntry
entry_of order [] = none
entry_of order (entry ∷ entries) =
    let rest = entry_of order entries in if eq_int entry.order order then some entry else rest

abbrev map_entry : (IndexEntry → IndexEntry) → Option IndexEntry → Option IndexEntry
map_entry f none = none
map_entry f (some e) = some (f e)

head_changed :
    (order other : ℤ) (status : SubtaskStatus) (sha : Option String) (e : IndexEntry)
    (es : List IndexEntry)
    → eq_int e.order order ≡ true
    → entry_of other (changed status sha e ∷ es) ≡ (
        if eq_int other order
        then map_entry (changed status sha) (entry_of other (e ∷ es))
        else entry_of other (e ∷ es))
unfolding entry_of
head_changed order other status none e es h = ground arith
head_changed order other status (some c) e es h = ground arith

-- The entry of the order is changed as asked, and every other order keeps its own.
pub entry_of-update_entries :
    (order other : ℤ) (status : SubtaskStatus) (sha : Option String)
    (entries updated : List IndexEntry)
    → update_entries order status sha entries ≡ some updated
    → entry_of other updated ≡ (
        if eq_int other order
        then map_entry (changed status sha) (entry_of other entries)
        else entry_of other entries)
unfolding update_entries entry_of
entry_of-update_entries order other status sha [] updated h = absurd (ground arith)
entry_of-update_entries order other status sha (e ∷ es) updated h =
    elim (Bool-cases (eq_int e.order order)) [
      | inl a ↦
          subst
            (λ u. entry_of other u ≡ (
              if eq_int other order
              then map_entry (changed status sha) (entry_of other (e ∷ es))
              else entry_of other (e ∷ es)))
            (some_inj (rw (update_entries, a) at h)) (head_changed order other status sha e es a)
      | inr a ↦ elim (Option-cases (update_entries order status sha es)) [
        | inl b ↦ absurd (ground (arith, rw (update_entries, a, b) at h))
        | inr (rest, b) ↦
            subst
              (λ u. entry_of other u ≡ (
                if eq_int other order
                then map_entry (changed status sha) (entry_of other (e ∷ es))
                else entry_of other (e ∷ es)))
              (some_inj (rw (update_entries, a, b) at h))
              (ground (arith, entry_of-update_entries order other status sha es rest b))
      ]
    ]
