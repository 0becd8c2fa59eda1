-- ===== src/Logging/Packets.antt =====
-- Zephyr's packet buffer in the mode MPSC_PBUF_MODE_OVERWRITE, which is a parameter: packets are claimed
-- in the order in which they were allocated, and an allocation may drop the oldest ones. A packet that is
-- allocated and not committed keeps those behind it from being claimed.
use mathlib.Core.Option.{some-injective}
use nturt_zephyr_common.Base.{
  ℕ, ◌≡◌, refl, Bool, true, false, Option, none, some, List, [], ◌∷◌, ◌++◌, length, ltb,
  if◌then◌else◌, arith, ap, inl, inr, Bool-cases, ◌<◌,
}

pub data Slot (Item : Type 0) : Type 0 where
  held : Slot Item
  committed : Item → Slot Item

pub record OverwritingBuffer (Item : Type 0) : Type 1 where
  pub Buffer : Type 0
  pub empty : Buffer
  -- `mpsc_pbuf_alloc` of so many words, without waiting: the buffer without the packets it dropped
  pub alloc : Buffer → ℕ → Option Buffer
  -- The packet that was just allocated is committed, or left as it is.
  pub commit : Buffer → Item → Buffer
  pub leave : Buffer → Buffer
  -- `mpsc_pbuf_claim` with the `mpsc_pbuf_free` that follows it, and `mpsc_pbuf_is_pending`
  pub claim : Buffer → Option (Item × Buffer)
  pub is_pending : Buffer → Bool
  -- What is in the buffer, oldest first
  pub slots : Buffer → List (Slot Item)
  pub slots-empty : slots empty ≡ []
  pub alloc_drops :
      (b b' : Buffer) (words : ℕ)
      → alloc b words ≡ some b'
      → (dropped : List (Slot Item)) × (slots b ≡ dropped ++ slots b')
  pub slots-commit : (b : Buffer) (x : Item) → slots (commit b x) ≡ slots b ++ committed x ∷ []
  pub slots-leave : (b : Buffer) → slots (leave b) ≡ slots b ++ held ∷ []
  pub claim_none : (b : Buffer) → slots b ≡ [] → claim b ≡ none
  pub claim_held : (b : Buffer) (ss : List (Slot Item)) → slots b ≡ held ∷ ss → claim b ≡ none
  pub claim_some :
      (b : Buffer) (x : Item) (ss : List (Slot Item))
      → slots b ≡ committed x ∷ ss
      → (b' : Buffer) × (claim b ≡ some (x, b')) × (slots b' ≡ ss)
  pub is_pending-committed :
      (b : Buffer) (x : Item) (ss : List (Slot Item))
      → slots b ≡ committed x ∷ ss
      → is_pending b ≡ true

-- A list of packets, which drops the oldest ones when it has `n`.
abbrev pub drop_full : {Item : Type 0} → ℕ → List (Slot Item) → List (Slot Item)
drop_full n [] = []
drop_full n (s ∷ ss) = if ltb (length (s ∷ ss)) n then s ∷ ss else ss

abbrev claim_list : {Item : Type 0} → List (Slot Item) → Option (Item × List (Slot Item))
claim_list [] = none
claim_list (held ∷ ss) = none
claim_list (committed x ∷ ss) = some (x, ss)

abbrev list_pending : {Item : Type 0} → List (Slot Item) → Bool
list_pending [] = false
list_pending (held ∷ ss) = false
list_pending (committed x ∷ ss) = true

pub drop_full_lem :
    {Item : Type 0} (n : ℕ) (b b' : List (Slot Item))
    → some (drop_full n b) ≡ some b'
    → (dropped : List (Slot Item)) × (b ≡ dropped ++ b')
drop_full_lem n [] b' h = ([], ground (arith, h))
drop_full_lem n (s ∷ ss) b' h = elim (Bool-cases (ltb (length (s ∷ ss)) n)) [
  | inl room ↦ ([], rw room at (some-injective _ _ h))
  | inr full ↦ (s ∷ [], ap (λ l. s ∷ l) (rw full at (some-injective _ _ h)))
]

abbrev pub list_buffer : (Item : Type 0) → ℕ → OverwritingBuffer Item
list_buffer Item n = record {
  Buffer = List (Slot Item);
  empty = [];
  alloc = λ b words. some (drop_full n b);
  commit = λ b x. b ++ committed x ∷ [];
  leave = λ b. b ++ held ∷ [];
  claim = claim_list;
  is_pending = list_pending;
  slots = λ b. b;
  slots-empty = refl;
  alloc_drops = λ b b' words h. drop_full_lem n b b' h;
  slots-commit = λ b x. refl;
  slots-leave = λ b. refl;
  claim_none = λ b h. ap claim_list h;
  claim_held = λ b ss h. ap claim_list h;
  claim_some = λ b x ss h. (ss, ap claim_list h, refl);
  is_pending-committed = λ b x ss h. ap list_pending h;
}

-- It has room for `n`.
pub drop_full-room :
    {Item : Type 0} (n : ℕ) (b : List (Slot Item)) → length b < n → drop_full n b ≡ b
drop_full-room n [] h = refl
drop_full-room n (s ∷ ss) h = ground (arith, h)
