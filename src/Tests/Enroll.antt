-- ===== src/Tests/Enroll.antt =====
-- The theorems on the enrollment profile at a configuration with SCEP and a certificate.
use Prim.Native.Char.{nul}
use mathlib.Core.Logic.Or
use mathlib.Core.HLevel.{⊥_prop}
use mathlib.Core.List.{Mem, not-mem-nil, eq-or-mem_of_mem-cons}
use micromdm.Base.{ℕ, zero, suc, ◌≤◌, String, List, [], ◌∷◌, ◌≡◌, refl, sym, ap, ◌∙◌, arith}
use micromdm.Enroll.Service.{Config, enroll, scep_subject}
use micromdm.Enroll.Unique.{IsFresh, AllUnique, enroll-AllUnique}
use micromdm.Enroll.Links.{IsLinked, enroll-IsLinked}

abbrev config : Config
config = record {
  url = "https://mdm.example";
  scep_url = "https://scep.example";
  scep_challenge = "secret";
  scep_subject = scep_subject;
  topic = "topic";
  ca_cert = "ca";
  tls_cert = "";
}

-- The UUIDs are texts of different sizes.
abbrev tally : ℕ → String
tally zero = String.[]
tally (suc n) = String.◌∷◌ nul (tally n)

abbrev size : String → ℕ
size String.[] = 0
size (String.◌∷◌ c s) = suc (size s)

size-tally : (n : ℕ) → size (tally n) ≡ n
size-tally zero = refl
size-tally (suc n) = ap suc (size-tally n)

abbrev new_v4 : ℕ → String × ℕ
new_v4 n = (tally n, suc n)

abbrev issued : ℕ → List String
issued zero = []
issued (suc n) = tally n ∷ issued n

not_issued : (n m : ℕ) → m ≤ n → ¬ Mem (tally n) (issued m)
not_issued n zero le h = not-mem-nil h
not_issued n (suc m) le h =
    Or.elim ⊥_prop (eq-or-mem_of_mem-cons h)
      (λ e. omega (arith, le, sym (size-tally n) ∙ ap size e ∙ size-tally m))
      (not_issued n m (omega (arith, le)))

new_v4-IsFresh : IsFresh new_v4 issued
new_v4-IsFresh = record { fresh = λ n. not_issued n n (omega arith); recorded = λ n. refl }

enroll-AllUnique_example : AllUnique (enroll new_v4 config 0).0
enroll-AllUnique_example = enroll-AllUnique new_v4 issued new_v4-IsFresh config 0

enroll-IsLinked_example : IsLinked config (enroll new_v4 config 0).0
enroll-IsLinked_example = enroll-IsLinked new_v4 config 0
