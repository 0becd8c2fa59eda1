-- ===== src/Err.antt =====
-- subsys/err/err.c and include/nturt/err/err.h: error reporting. The errors stand in a linker
-- section; a pointer to one is its index there. A failed assertion is `none`.
pub mod Events
pub mod Invariant
pub mod Status
pub mod Enabled
pub mod Init
pub mod Matching
mod Tests
use nturt_zephyr_common.Base.{
  ℕ, ◌+◌, ◌-◌, bit_and, Bool, true, false, not, xor, ◌&&◌, Option, none, some, List, [], ◌∷◌, ◌++◌,
  String, ◌==◌, if◌then◌else◌, get_elem?, set, erase, test_bit, ◌>>=◌,
}
use nturt_zephyr_common.Base.HashMap.{HashMap, Insert, added, replaced, failed}
use nturt_zephyr_common.Err.Events.{
  Err, Callback, Event, notify, log, flag_disabled, flag_set, update_flags, severity,
}

module _ (H : HashMap) where
  -- `struct err_ctx`, with the linker sections and `g_err_map`. `errors` is the list of set errors.
  pub record Ctx : Type 0 where
    pub cb_dispatched : Bool
    pub errors : List ℕ
    pub section : List Err
    pub callbacks : List Callback
    pub err_map : H.Map

  -- `err_get`: the pointer, and what it points to.
  unfoldable pub err_get : Ctx → ℕ → Option (ℕ × Err)
  err_get c errcode = do p ← H.get c.err_map errcode; e ← get_elem? c.section p; some (p, e)

  -- The part of `err_report` under the lock, for an error that changes: the list and the flags.
  abbrev pub changed : Err → Bool → Err
  changed e on = record e { flags = update_flags e.flags on }

  unfoldable pub toggle : Ctx → ℕ → Err → Bool → Ctx
  toggle c p e on =
      let errors' : List ℕ = if on then p ∷ c.errors else erase c.errors p in
      record c { section = set c.section p (changed e on); errors = errors' }

  -- The callbacks and the log see a copy of the changed error, once callbacks are dispatched.
  unfoldable pub announce : Ctx → Err → List Event
  announce c e = if c.cb_dispatched then notify c.callbacks e ++ log e else []

  -- The body of `err_report` behind `err_get`.
  unfoldable pub report_at : Ctx → ℕ → Err → Bool → Ctx × List Event
  report_at c p e on =
      if test_bit e.flags flag_disabled
      then (c, [])
      else if not (xor on (test_bit e.flags flag_set))
      then (c, [])
      else (toggle c p e on, announce c (changed e on))

  unfoldable pub err_report : Ctx → ℕ → Bool → Option (Ctx × List Event)
  unfolding err_get report_at
  err_report c errcode on = do (p, e) ← err_get c errcode; some (report_at c p e on)

  unfoldable pub err_is_set : Ctx → ℕ → Option Bool
  unfolding err_get
  err_is_set c errcode = do (p, e) ← err_get c errcode; some (test_bit e.flags flag_set)

-- How `init` ends: a context, an error number that the map returned, or a failed assertion.
pub data Start {ℓ} (A : Type ℓ) : Type ℓ where
  ready : A → Start A
  errno : ℕ → Start A
  assertion : Start A

-- An early return ends the loop.
abbrev pub and_then {ℓ κ} : {A : Type ℓ} {B : Type κ} → Start A → (A → Start B) → Start B
and_then (ready a) f = f a
and_then (errno n) f = errno n
and_then assertion f = assertion

-- IS_POWER_OF_TWO(flags & ERR_FLAG_SEV_MASK)
abbrev pub has_one_severity : Err → Bool
has_one_severity e = not (severity e == 0) && bit_and (severity e) (severity e - 1) == 0

module _ (H : HashMap) where
  -- What follows the insertion into the map, by its result.
  unfoldable pub entered : Ctx H → ℕ → Err → Insert × H.Map → Start (Ctx H)
  entered c p e (replaced, m) = assertion
  entered c p e (failed n, m) = errno n
  entered c p e (added, m) =
      let is_on = not (test_bit e.flags flag_disabled) && test_bit e.flags flag_set in
      let errors' : List ℕ = if is_on then p ∷ c.errors else c.errors in
      ready (record c { err_map = m; errors = errors' })

  -- One round of the loop of `init`, at the error with index `p`.
  unfoldable pub register : Ctx H → ℕ → Err → Start (Ctx H)
  unfolding entered
  register c p e =
      if has_one_severity e then entered c p e (H.insert c.err_map e.errcode p) else assertion

  -- The loop over the section, from the error with index `p` on.
  unfoldable pub init_from : Ctx H → ℕ → List Err → Start (Ctx H)
  unfolding register
  init_from c p [] = ready c
  init_from c p (e ∷ es) = and_then (register c p e) (λ c'. init_from c' (p + 1) es)

  -- `g_ctx` and `g_err_map` as they are defined.
  abbrev pub blank : List Err → List Callback → Ctx H
  blank section callbacks = record {
    cb_dispatched = false;
    errors = [];
    section = section;
    callbacks = callbacks;
    err_map = H.empty;
  }

  unfoldable pub init : List Err → List Callback → Start (Ctx H)
  unfolding init_from
  init section callbacks = init_from (blank section callbacks) 0 section

  -- What `cb_init` does for each error that is set.
  unfoldable pub announce_all : Ctx H → List ℕ → List Event
  announce_all c [] = []
  announce_all c (p ∷ ps) = elim (get_elem? c.section p) [
    | none ↦ announce_all c ps
    | some e ↦ notify c.callbacks e ++ log e ++ announce_all c ps
  ]

  unfoldable pub cb_init : Ctx H → Ctx H × List Event
  unfolding announce_all
  cb_init c = (record c { cb_dispatched = true }, announce_all c c.errors)
