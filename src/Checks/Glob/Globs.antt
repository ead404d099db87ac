-- ===== src/Checks/Glob/Globs.antt =====
-- globmatch.py: what a glob means, on its own text, and the pieces it is compiled to.
use wastech_orchestrator.Prelude.{
  ℕ, ◌==◌, ◌&&◌, ◌≡◌, ◌≢◌, ◌↔◌, inl, inr, refl, sym, ap, subst, ◌∙◌, List, [], ◌∷◌, ◌++◌, arith,
  Bool-cases,
}
use wastech_orchestrator.Checks.Glob.{
  Piece, leading, anything, within, one, literal, slash, star, piece, pieces, normalized,
}
use wastech_orchestrator.Checks.Glob.Meaning.{
  Avoids, no_directory, directories, all_of, segment, any_one, same, Matches, done, cut,
}

-- The text does not start with the character `a`.
abbrev Starts : ℕ → List ℕ → Type 0
Starts a [] = ⊥
Starts a (c ∷ s) = c ≡ a

-- The texts that a glob stands for. The first two stars of a run of stars are read as `**`.
pub data Globs : List ℕ → List ℕ → Type 0 where
  end : Globs [] []
  -- `**/`: no directory, or some, each with its slash
  here : {p s : List ℕ} → Globs p s → Globs (b'*' ∷ b'*' ∷ b'/' ∷ p) s
  below :
      {p : List ℕ} (w s : List ℕ)
      → Avoids 10 w
      → Globs p s
      → Globs (b'*' ∷ b'*' ∷ b'/' ∷ p) ((w ++ b'/' ∷ []) ++ s)
  -- `**`: any text
  across :
      {p : List ℕ} (w s : List ℕ)
      → ¬ (Starts b'/' p)
      → Avoids 10 w
      → Globs p s
      → Globs (b'*' ∷ b'*' ∷ p) (w ++ s)
  -- `*`: any text without a slash
  along :
      {p : List ℕ} (w s : List ℕ)
      → ¬ (Starts b'*' p)
      → Avoids b'/' w
      → Globs p s
      → Globs (b'*' ∷ p) (w ++ s)
  -- `?`: any character but a slash
  some_char : {p s : List ℕ} (c : ℕ) → c ≢ b'/' → Globs p s → Globs (b'?' ∷ p) (c ∷ s)
  -- any other character: itself
  char : {p s : List ℕ} (c : ℕ) → c ≢ b'*' → c ≢ b'?' → Globs p s → Globs (c ∷ p) (c ∷ s)

-- A text with each backslash turned into a slash.
pub data Turned : List ℕ → List ℕ → Type 0 where
  none_left : Turned [] []
  turn : {s t : List ℕ} → Turned s t → Turned (b'\\' ∷ s) (b'/' ∷ t)
  keep : {s t : List ℕ} (c : ℕ) → c ≢ b'\\' → Turned s t → Turned (c ∷ s) (c ∷ t)

pub Turned-normalized : {s t : List ℕ} → Turned s t → normalized s ≡ t
Turned-normalized none_left = refl
Turned-normalized (turn h) = ap (λ t. b'/' ∷ t) (Turned-normalized h)
Turned-normalized (keep c n h) = ground (arith, n, Turned-normalized h)

pub normalized-Turned : (s : List ℕ) → Turned s (normalized s)
normalized-Turned [] = none_left
normalized-Turned (c ∷ s) = elim (Bool-cases (c == b'\\')) [
  | inl e ↦
      let q : c ≡ b'\\' = ground (arith, e) in
      subst (λ x. Turned (x ∷ s) (normalized (x ∷ s))) (sym q) (turn (normalized-Turned s))
  | inr e ↦ rw e (keep c (ground (arith, e)) (normalized-Turned s))
]

-- Where no `**` starts, the first character is a piece of its own.
pieces-single :
    (a : ℕ) (p : List ℕ) → ¬ ((a ≡ star) × Starts star p) → pieces (a ∷ p) ≡ piece a ∷ pieces p
unfolding pieces
pieces-single a [] n = refl
pieces-single a (b ∷ []) n = elim (Bool-cases (a == star && b == star)) [
  | inl e ↦ absurd (n (ground (arith, e), ground (arith, e)))
  | inr e ↦ rw (pieces, e) refl
]
pieces-single a (b ∷ c ∷ s) n = elim (Bool-cases (a == star && b == star)) [
  | inl e ↦ absurd (n (ground (arith, e), ground (arith, e)))
  | inr e ↦ rw (pieces, e) refl
]

pieces-across : (p : List ℕ) → ¬ (Starts slash p) → pieces (star ∷ star ∷ p) ≡ anything ∷ pieces p
unfolding pieces
pieces-across [] n = refl
pieces-across (c ∷ p) n = elim (Bool-cases (c == slash)) [
  | inl e ↦ absurd (n (ground (arith, e)))
  | inr e ↦ rw (pieces, e) refl
]

Globs-Matches : {p s : List ℕ} → Globs p s → Matches (pieces p) s
unfolding pieces
Globs-Matches end = done
Globs-Matches (here {p} {s} g) = cut [] s s no_directory (Globs-Matches g) refl
Globs-Matches (below {p} w s a g) =
    cut (w ++ slash ∷ []) s ((w ++ slash ∷ []) ++ s) (directories w a) (Globs-Matches g) refl
Globs-Matches (across {p} w s n a g) =
    subst (λ ps. Matches ps (w ++ s)) (sym (pieces-across p n))
      (cut w s (w ++ s) (all_of w a) (Globs-Matches g) refl)
Globs-Matches (along {p} w s n a g) =
    subst (λ ps. Matches ps (w ++ s)) (sym (pieces-single star p (λ z. n z.1)))
      (cut w s (w ++ s) (segment w a) (Globs-Matches g) refl)
Globs-Matches (some_char {p} {s} c n g) =
    subst (λ ps. Matches ps (c ∷ s))
      (sym (pieces-single b'?' p (λ z. absurd (ground (arith, z.0)))))
      (cut (c ∷ []) s (c ∷ s) (any_one c n) (Globs-Matches g) refl)
Globs-Matches (char {p} {s} c n k g) =
    let plain : piece c ≡ literal c = ground (arith, n, k) in
    subst (λ ps. Matches ps (c ∷ s))
      (ap (λ x. x ∷ pieces p) (sym plain) ∙ sym (pieces-single c p (λ z. n z.0)))
      (cut (c ∷ []) s (c ∷ s) (same c) (Globs-Matches g) refl)

-- How a text is cut by a pattern that starts with a piece.
module _ (p : List ℕ) (ps : List Piece) (back : (s : List ℕ) → Matches ps s → Globs p s) where
  leading-Globs : (s : List ℕ) → Matches (leading ∷ ps) s → Globs (star ∷ star ∷ slash ∷ p) s
  leading-Globs s (cut w rest s' no_directory m q) = subst (Globs _) (sym q) (here (back rest m))
  leading-Globs s (cut w rest s' (directories v a) m q) =
      subst (Globs _) (sym q) (below v rest a (back rest m))

  anything-Globs :
      (s : List ℕ) → ¬ (Starts slash p) → Matches (anything ∷ ps) s → Globs (star ∷ star ∷ p) s
  anything-Globs s n (cut w rest s' (all_of v a) m q) =
      subst (Globs _) (sym q) (across v rest n a (back rest m))

  within-Globs : (s : List ℕ) → ¬ (Starts star p) → Matches (within ∷ ps) s → Globs (star ∷ p) s
  within-Globs s n (cut w rest s' (segment v a) m q) =
      subst (Globs _) (sym q) (along v rest n a (back rest m))

  one-Globs : (s : List ℕ) → Matches (one ∷ ps) s → Globs (b'?' ∷ p) s
  one-Globs s (cut w rest s' (any_one c n) m q) =
      subst (Globs _) (sym q) (some_char c n (back rest m))

  literal-Globs :
      (a : ℕ) (s : List ℕ) → a ≢ star → a ≢ b'?' → Matches (literal a ∷ ps) s → Globs (a ∷ p) s
  literal-Globs a s n k (cut w rest s' (same c) m q) =
      subst (Globs _) (sym q) (char a n k (back rest m))

  piece-Globs :
      (a : ℕ) (s : List ℕ)
      → ¬ ((a ≡ star) × Starts star p)
      → Matches (piece a ∷ ps) s
      → Globs (a ∷ p) s
  piece-Globs a s n m = elim (Bool-cases (a == star)) [
    | inl e ↦
        let q : a ≡ star = ground (arith, e) in
        subst (λ c. Globs (c ∷ p) s) (sym q) (within-Globs s (λ z. n (q, z)) (rw e at m))
    | inr e ↦ elim (Bool-cases (a == b'?')) [
      | inl f ↦
          let q : a ≡ b'?' = ground (arith, f) in
          subst (λ c. Globs (c ∷ p) s) (sym q) (one-Globs s (rw (e, f) at m))
      | inr f ↦ literal-Globs a s (ground (arith, e)) (ground (arith, f)) (rw (e, f) at m)
    ]
  ]

Matches-Globs : (p s : List ℕ) → Matches (pieces p) s → Globs p s
unfolding pieces
Matches-Globs [] [] done = end
Matches-Globs [] (_ ∷ _) m = elim m [ ]
Matches-Globs (a ∷ []) s m = piece-Globs [] [] (λ r k. Matches-Globs [] r k) a s (λ z. absurd z.1) m
Matches-Globs (a ∷ b ∷ []) s m = elim (Bool-cases (a == star && b == star)) [
  | inl e ↦
      let both : (a ≡ star) × (b ≡ star) = (ground (arith, e), ground (arith, e)) in
      subst (λ c. Globs (c ∷ b ∷ []) s) (sym both.0)
        (subst (λ c. Globs (star ∷ c ∷ []) s) (sym both.1)
          (anything-Globs [] [] (λ r k. Matches-Globs [] r k) s (λ z. absurd z)
            (rw (pieces, e) at m)))
  | inr e ↦
      piece-Globs (b ∷ []) (pieces (b ∷ [])) (λ r k. Matches-Globs (b ∷ []) r k) a s
        (λ z. absurd (ground (arith, e, z.0, z.1))) (rw (pieces, e) at m)
]
Matches-Globs (a ∷ b ∷ c ∷ p) s m = elim (Bool-cases (a == star && b == star)) [
  | inr e ↦
      piece-Globs (b ∷ c ∷ p) (pieces (b ∷ c ∷ p)) (λ r k. Matches-Globs (b ∷ c ∷ p) r k) a s
        (λ z. absurd (ground (arith, e, z.0, z.1))) (rw (pieces, e) at m)
  | inl e ↦
      let both : (a ≡ star) × (b ≡ star) = (ground (arith, e), ground (arith, e)) in
      subst (λ x. Globs (x ∷ b ∷ c ∷ p) s) (sym both.0)
        (subst (λ x. Globs (star ∷ x ∷ c ∷ p) s) (sym both.1)
          (elim (Bool-cases (c == slash)) [
            | inl f ↦
                let q : c ≡ slash = ground (arith, f) in
                subst (λ x. Globs (star ∷ star ∷ x ∷ p) s) (sym q)
                  (leading-Globs p (pieces p) (λ r k. Matches-Globs p r k) s
                    (rw (pieces, e, f) at m))
            | inr f ↦
                anything-Globs (c ∷ p) (pieces (c ∷ p)) (λ r k. Matches-Globs (c ∷ p) r k) s
                  (λ z. absurd (ground (arith, f, z))) (rw (pieces, e, f) at m)
          ]))
]

-- The pieces of a glob match exactly the texts that the glob stands for.
pub pieces_iff : (p s : List ℕ) → Matches (pieces p) s ↔ Globs p s
pieces_iff p s = (Matches-Globs p s, Globs-Matches)
