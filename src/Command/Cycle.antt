-- ===== src/Command/Cycle.antt =====
-- `NextCommand` of command/datastore.go called again and again.
use micromdm.Base.{
  ℕ, zero, suc, String, List, [], ◌∷◌, ◌++◌, map, Result, ok, Action, ◌≡◌, ◌≢◌, true, refl, ap, ◌∙◌,
  arith, length, some, none, length-append, Option,
}
use mathlib.Core.List.{append_assoc, append-nil}
use mathlib.Core.Path.{subst, ap₂}
use micromdm.Mdm.{Plist}
use micromdm.Services.Backend.{Backend, Entry, list, str, cache, elements}
use micromdm.Services.Lawful.{World, Behaves}
use micromdm.Command.Datastore.{next_command}
use micromdm.Command.Queue.{waiting, next_command-Rotated}

-- A call made `n` times, with what it returns.
module _ {W A : Type 0} where
  unfoldable pub repeat : ℕ → Action W A → W → List (Result A) × W
  repeat zero m w = ([], w)
  repeat (suc n) m w = let rest = repeat n m (m w).1 in ((m w).0 ∷ rest.0, rest.1)

pub repeat-Behaves :
    {W A : Type 0} {o : World W} {m : Action W A} {m' : Action Backend A} (n : ℕ)
    → Behaves o m m'
    → (w : W) → o.up w ≡ true
    → ((repeat n m w).0 ≡ (repeat n m' (o.view w)).0)
      × (o.view (repeat n m w).1 ≡ (repeat n m' (o.view w)).1)
unfolding repeat
repeat-Behaves zero h w u = (refl, refl)
repeat-Behaves {o} {m} {m'} (suc n) h w u =
    let (p, q, v) = h.run w u in
    let (ps, qs) = repeat-Behaves {o = o} {m = m} {m' = m'} n h (m w).1 v in
    subst
      (λ b.
        ((m w).0 ∷ (repeat n m (m w).1).0 ≡ (m' (o.view w)).0 ∷ (repeat n m' b).0)
        × (o.view (repeat n m (m w).1).1 ≡ (repeat n m' b).1))
      q (cc, qs)

pub elements-eq-ok :
    (e : Option Entry) (x : String) (xs : List String)
    → elements e ≡ ok (x ∷ xs)
    → e ≡ some (list (x ∷ xs))
elements-eq-ok none x xs h = ground arith
elements-eq-ok (some (list ys)) x xs h = ground arith
elements-eq-ok (some (str s)) x xs h = cc

module _ (plist : Plist) (u : String) (payload : String → String) where
  -- Every command of the list has its payload in Redis.
  abbrev pub Kept : Backend → List String → Type 0
  Kept b [] = Unit
  Kept b (x ∷ xs) = (b.entry x ≡ some (str (payload x))) × Kept b xs

  Kept-same :
      (b c : Backend) (xs ys : List String)
      → b.entry u ≡ some (list ys)
      → ((k : String) → k ≢ u → c.entry k ≡ b.entry k)
      → Kept b xs
      → Kept c xs
  Kept-same b c [] ys e same h = tt
  Kept-same b c (x ∷ xs) ys e same (p, h) =
      (same x (λ q. cc (ap b.entry q)) ∙ p, Kept-same b c xs ys e same h)

  pub rotate_all :
      (xs ys : List String) (n : ℕ) (b : Backend)
      → waiting b u ≡ ok (xs ++ ys)
      → Kept b xs
      → length (xs ++ ys) ≡ n
      → let (rs, c) = repeat (length xs) (next_command cache plist u) b in
        (rs ≡ map (λ x. ok (payload x, n)) xs) × (waiting c u ≡ ok (ys ++ xs))
  unfolding repeat
  rotate_all [] ys n b e h l = (refl, rw append-nil e)
  rotate_all (x ∷ xs) ys n b e (p, h) l =
      let at = elements-eq-ok (b.entry u) x (xs ++ ys) e in
      let (r, e', same) = next_command-Rotated plist u x (payload x) (xs ++ ys) b at p in
      let (rs, e'') =
        rotate_all xs (ys ++ (x ∷ [])) n (next_command cache plist u b).1
          (e' ∙ ap ok (append_assoc xs ys (x ∷ [])))
          (Kept-same b (next_command cache plist u b).1 xs (x ∷ (xs ++ ys)) at same h)
          (omega (
            arith,
            length-append {0} xs (ys ++ (x ∷ [])),
            length-append {0} xs ys,
            length-append {0} ys (x ∷ []),
          )) in
      (ap₂ ◌∷◌ (r ∙ ap (λ k. ok (payload x, k)) l) rs, e'' ∙ ap ok (append_assoc ys (x ∷ []) xs))
