-- ===== src/Telemetry/Sections.antt =====
-- subsys/telemetry/telemetry.c: the lists of group data in the section of the data.
use nturt_zephyr_common.Base.{
  ℕ, ◌≡◌, refl, ap, ◌∙◌, Bool, true, false, Option, some, List, get_elem?, if◌then◌else◌, ◌==◌,
  ◌>>=◌,
}
use nturt_zephyr_common.Telemetry.{Normal, normal, TmData, as_normal, normal_at, resolve, store}
use nturt_zephyr_common.Telemetry.Values.{normal_at-store}

-- The list of group data of normal data.
abbrev pub groups_at : List TmData → ℕ → Option (List (ℕ × ℕ))
groups_at section r = do n ← normal_at section r; some n.groups

-- Pointers lead in one section where they lead in the other.
abbrev pub SameTargets : List TmData → List TmData → Type 0
SameTargets s t = (p : ℕ) → resolve t p ≡ resolve s p

-- What a write to normal data does to the lists.
pub groups_at-store :
    (section : List TmData) (q : ℕ) (n m : Normal) (r : ℕ)
    → normal_at section q ≡ some n
    → groups_at (store section q m) r ≡ (if q == r then some m.groups else groups_at section r)
groups_at-store section q n m r h =
    ap (λ (o : Option Normal). do n ← o; some n.groups) (normal_at-store section q n m r h)
    ∙ split (q == r)
  where
    split :
        (b : Bool)
        → ((if b then some m else normal_at section r) >>= (λ n. some n.groups))
          ≡ (if b then some m.groups else groups_at section r)
    split true = refl
    split false = refl

pub normal_at-some :
    (section : List TmData) (p : ℕ) (x : TmData) (n : Normal)
    → get_elem? section p ≡ some x
    → x.type ≡ normal n
    → normal_at section p ≡ some n
unfolding normal_at
normal_at-some section p x n at same =
    ap (λ (o : Option TmData). do d ← o; as_normal d.type) at ∙ ap as_normal same

pub groups_at-same :
    (s t : List TmData) (r : ℕ) → get_elem? t r ≡ get_elem? s r → groups_at t r ≡ groups_at s r
unfolding normal_at
groups_at-same s t r h =
    ap (λ (o : Option TmData). do n ← (do d ← o; as_normal d.type); some n.groups) h
