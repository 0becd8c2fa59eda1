-- ===== src/Err/Events.antt =====
-- subsys/err/err.c and include/nturt/err/err.h: the data of an error and of a callback, and what
-- `err_notify` and `err_log` do for an error that changed.
use nturt_zephyr_common.Base.{
  ℕ, Bool, true, false, List, [], ◌∷◌, String, ◌%◌, ◌^◌, ◌==◌, if◌then◌else◌, test_bit, set_bit,
  clear_bit,
}

-- `struct err`; its list entry `next` is the list `errors` of the context.
pub record Err : Type 0 where
  pub errcode : ℕ
  pub flags : ℕ
  pub name : String
  pub desc : String

-- ERR_FLAG_DISABLED and ERR_FLAG_SET, by their bit number.
abbrev pub flag_disabled : ℕ
flag_disabled = 4

abbrev pub flag_set : ℕ
flag_set = 5

-- `flags |= ERR_FLAG_SET` or `flags &= ~ERR_FLAG_SET`
abbrev pub update_flags : ℕ → Bool → ℕ
update_flags x on = if on then set_bit x flag_set else clear_bit x flag_set

-- flags & ERR_FLAG_SEV_MASK, the four low bits.
abbrev pub severity : Err → ℕ
severity e = e.flags % 2 ^ 4

-- `enum err_sev`
abbrev pub sev_info : ℕ
sev_info = 1

abbrev pub sev_warn : ℕ
sev_warn = 2

abbrev pub sev_error : ℕ
sev_error = 4

abbrev pub sev_fatal : ℕ
sev_fatal = 8

-- `enum err_filter_type`
pub data FilterType : Type 0 where
  invalid code sev : FilterType

-- `struct err_filter`: the array behind the union, `size` values.
pub record Filter : Type 0 where
  pub type : FilterType
  pub values : List ℕ

-- `struct err_callback`, the handler named by a number. The filters are listed without the
-- terminator that ERR_CALLBACK_DEFINE appends.
pub record Callback : Type 0 where
  pub handler : ℕ
  pub user_data : ℕ
  pub filters : List Filter

pub data Level : Type 0 where
  inf wrn err : Level

-- What a report does outside the module: a call of a handler, or a line of the log, with the
-- description where the line shows it.
pub data Event : Type 0 where
  handled : ℕ → ℕ → Bool → ℕ → Event
  set_line : Level → ℕ → String → String → Event
  cleared_line : Level → ℕ → String → Event

-- The `switch` on the filter's type.
unfoldable pub hits : FilterType → ℕ → Err → Bool
hits code v e = v == e.errcode
hits sev v e = v == severity e
hits _ v e = false

-- The loop over the filter's values, which ends at the first match.
unfoldable pub matches_any : FilterType → List ℕ → Err → Bool
unfolding hits
matches_any t [] e = false
matches_any t (v ∷ vs) e = if hits t v e then true else matches_any t vs e

-- The loop over the filters: it ends at a terminator, or when a filter does not match.

unfoldable pub matches_all : List Filter → Err → Bool
unfolding matches_any
matches_all [] e = true
matches_all (f ∷ fs) e = elim f.type [
  | invalid ↦ true
  | _ ↦ if matches_any f.type f.values e then matches_all fs e else false
]

unfoldable pub notify : List Callback → Err → List Event
unfolding matches_all
notify [] e = []
notify (c ∷ cs) e =
    if matches_all c.filters e
    then handled c.handler e.errcode (test_bit e.flags flag_set) c.user_data ∷ notify cs e
    else notify cs e

unfoldable pub log : Err → List Event
log e =
    if test_bit e.flags flag_set
    then if severity e == sev_info
      then set_line inf e.errcode e.name e.desc ∷ []
      else if severity e == sev_warn
      then set_line wrn e.errcode e.name e.desc ∷ []
      else if severity e == sev_error
      then set_line err e.errcode e.name e.desc ∷ []
      else if severity e == sev_fatal
      then set_line err e.errcode e.name e.desc ∷ []
      else []
    else cleared_line inf e.errcode e.name ∷ []
