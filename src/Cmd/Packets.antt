-- ===== src/Cmd/Packets.antt =====
-- Zephyr's multi producer, single consumer packet buffer, which is a parameter: an interface with its
-- documented behaviour, that packets are claimed in the order in which they were committed.
use nturt_zephyr_common.Base.{
  ℕ, ◌≡◌, refl, Bool, Option, none, some, List, [], ◌∷◌, ◌++◌, length, ltb,
}

pub record PacketBuffer (Item : Type 0) : Type 1 where
  pub Buffer : Type 0
  pub empty : Buffer
  -- Whether `mpsc_pbuf_alloc` of so many words succeeds
  pub can_alloc : Buffer → ℕ → Bool
  pub commit : Buffer → Item → Buffer
  -- `mpsc_pbuf_claim` with the `mpsc_pbuf_free` that follows it
  pub claim : Buffer → Option (Item × Buffer)
  -- The packets committed and not yet claimed
  pub pending : Buffer → List Item
  pub pending-empty : pending empty ≡ []
  pub pending-commit : (b : Buffer) (x : Item) → pending (commit b x) ≡ pending b ++ x ∷ []
  pub claim_none : (b : Buffer) → pending b ≡ [] → claim b ≡ none
  pub claim_some :
      (b : Buffer) (x : Item) (xs : List Item)
      → pending b ≡ x ∷ xs
      → (b' : Buffer) × (claim b ≡ some (x, b')) × (pending b' ≡ xs)

-- A list of at most `n` packets.
abbrev pub claim_list {ℓ} : {A : Type ℓ} → List A → Option (A × List A)
claim_list [] = none
claim_list (x ∷ xs) = some (x, xs)

pub claim_list-none : {A : Type 0} (b : List A) → b ≡ [] → claim_list b ≡ none
claim_list-none [] h = refl
claim_list-none (x ∷ xs) h = absurd (cc)

pub claim_list-some :
    {A : Type 0} (b : List A) (x : A) (xs : List A)
    → b ≡ x ∷ xs
    → (b' : List A) × (claim_list b ≡ some (x, b')) × (b' ≡ xs)
claim_list-some b x xs h = rw h (xs, refl, refl)

abbrev pub list_buffer : (Item : Type 0) → ℕ → PacketBuffer Item
list_buffer Item n = record {
  Buffer = List Item;
  empty = [];
  can_alloc = λ b words. ltb (length b) n;
  commit = λ b x. b ++ x ∷ [];
  claim = claim_list;
  pending = λ b. b;
  pending-empty = refl;
  pending-commit = λ b x. refl;
  claim_none = claim_list-none;
  claim_some = claim_list-some;
}
