-- ===== src/Process/Pid/Laws.antt =====
-- What the allocator of process identifiers gives out and takes back.
use gos_v.Common.{
  ℕ, ◌+◌, ◌*◌, ◌/◌, ◌%◌, ◌<◌, ◌≡◌, ◌↔◌, inl, inr, refl, sym, ap, ◌∙◌, subst, Bool, true, false,
  Option, none, some, List, arith, ◌==◌, if◌then◌else◌, Bool-cases, ==→eq, ==→ne, length, get_or,
  set, get_or-set_self, get_or-set_ne,
}
use gos_v.Common.Bitmap.{
  claim, release, flags, first_false, first_false_lem, first_false-none, first_false-lt,
}
use gos_v.Common.Bitmap.Laws.{
  Claims, claim-Claims, flags-release, length-flags, get_or-flags, length-release,
}
use gos_v.Process.Pid.{Bitmap, allocate_pid, free_pid, in_use}

in_use-flags :
    (b : Bitmap) (pid : ℕ) (d : Bool)
    → pid < length b * 32
    → in_use b pid ≡ get_or (flags 32 b) pid d
unfolding in_use
in_use-flags b pid d h = sym (
    ap (λ p. get_or (flags 32 b) p d) (omega arith)
    ∙ get_or-flags 32 b (pid / 32) (pid % 32) d (omega arith) (omega arith))

get_or-set {ℓ} :
    {A : Type ℓ} (xs : List A) (i j : ℕ) (v d : A)
    → i < length xs
    → get_or (set xs i v) j d ≡ (if j == i then v else get_or xs j d)
get_or-set xs i j v d h = elim (Bool-cases (j == i)) [
  | inl e ↦ rw (e, ==→eq j i e) (get_or-set_self xs i v d h)
  | inr e ↦ rw e (get_or-set_ne xs i j v d (λ q. ==→ne j i e (sym q)))
]

-- What `AllocatePID` promises of the identifier and of the bitmap that it leaves.
pub record Allocated (b : Bitmap) (pid : ℕ) (b' : Bitmap) : Type 0 where
  pub below : pid < 1024
  pub free_before : in_use b pid ≡ false
  pub least : (q : ℕ) → q < pid → in_use b q ≡ true
  pub taken : (q : ℕ) → q < 1024 → in_use b' q ≡ (if q == pid then true else in_use b q)
  pub sized : length b' ≡ 32

module _ (b : Bitmap) (pid : ℕ) (b' : Bitmap) (l : length b ≡ 32) (l' : length b' ≡ 32) where
  claimed_by :
      first_false (flags 32 b) ≡ some pid
      → flags 32 b' ≡ set (flags 32 b) pid true
      → Allocated b pid b'
  claimed_by f g =
      let lt : pid < length (flags 32 b) = first_false-lt (flags 32 b) pid f in
      let below : pid < 1024 = omega (arith, length-flags 32 b) in
      record {
        below = below;
        free_before =
            in_use-flags b pid true (omega arith) ∙ (first_false_lem (flags 32 b) pid f).0;
        least = λ q h.
            in_use-flags b q false (omega arith) ∙ (first_false_lem (flags 32 b) pid f).1 q h;
        taken = λ q h.
            in_use-flags b' q true (omega arith)
            ∙ ap (λ fs. get_or fs q true) g
            ∙ get_or-set (flags 32 b) pid q true true lt
            ∙ ap (λ v. if q == pid then true else v) (sym (in_use-flags b q true (omega arith)));
        sized = l';
      }

pub allocate_pid-Allocated :
    (b : Bitmap) (pid : ℕ) (b' : Bitmap)
    → length b ≡ 32
    → allocate_pid b ≡ some (pid, b')
    → Allocated b pid b'
unfolding allocate_pid
allocate_pid-Allocated b pid b' l e = go (subst (Claims 32 0 b) e (claim-Claims 32 0 b))
  where
    go : Claims 32 0 b (some (pid, b')) → Allocated b pid b'
    go (p, d, f, g, s) =
        let q : p ≡ pid = omega arith in
        claimed_by b pid b' l (s ∙ l) (f ∙ ap some q) (g ∙ ap (λ n. set (flags 32 b) n true) q)

-- `AllocatePID` ends without a value exactly when all identifiers are in use.
pub allocate_pid-none_iff :
    (b : Bitmap)
    → length b ≡ 32
    → (allocate_pid b ≡ none) ↔ ((q : ℕ) → q < 1024 → in_use b q ≡ true)
unfolding allocate_pid
allocate_pid-none_iff b l = (
  (λ e q h.
      in_use-flags b q false (omega arith)
      ∙ first_false-none (flags 32 b) (subst (Claims 32 0 b) e (claim-Claims 32 0 b)) q
          (omega (arith, length-flags 32 b))),
  (λ all. go (claim 32 0 b) refl all),
)
  where
    go :
        (r : Option (ℕ × Bitmap))
        → claim 32 0 b ≡ r
        → ((q : ℕ) → q < 1024 → in_use b q ≡ true)
        → r ≡ none
    go none e all = refl
    go (some (pid, b')) e all =
        let a = allocate_pid-Allocated b pid b' l e in cc (all pid a.below, a.free_before)

-- `FreePID` gives the identifier back, and no other changes.
pub in_use-free_pid :
    (b : Bitmap) (pid q : ℕ)
    → length b ≡ 32
    → pid < 1024
    → q < 1024
    → in_use (free_pid b pid) q ≡ (if q == pid then false else in_use b q)
unfolding free_pid
in_use-free_pid b pid q l h k =
    in_use-flags (release b (pid / 32) (pid % 32)) q true
      (omega (arith, length-release b (pid / 32) (pid % 32)))
    ∙ ap (λ fs. get_or fs q true)
        (flags-release 32 b (pid / 32) (pid % 32) (omega arith) (omega arith))
    ∙ get_or-set (flags 32 b) (pid / 32 * 32 + pid % 32) q false true
        (omega (arith, length-flags 32 b))
    ∙ ap (λ n. if q == n then false else get_or (flags 32 b) q true) (omega arith)
    ∙ ap (λ v. if q == pid then false else v) (sym (in_use-flags b q true (omega arith)))
