-- ===== src/MetaData.antt =====
-- src/rsb/MetaData.cpp: time stamps in microseconds, user times and user infos of an event. The
-- overloads for `double` and for `ptime` only convert and are left out.
pub mod Laws
use rsb_cpp.Prelude.{
  ℕ, Bool, true, false, ◌&&◌, List, [], ◌∷◌, Option, none, some, ◌==◌, if◌then◌else◌, Text, text_eq,
}
use rsb_cpp.Maps.{Ord, Map, KeySet, find, insert, erase, text_ord}

pub record MetaData (Uuid : Type 0) : Type 0 where
  pub sender_id : Uuid
  pub create_time : ℕ
  pub send_time : ℕ
  pub receive_time : ℕ
  pub deliver_time : ℕ
  pub user_times : Map Text ℕ
  pub user_infos : Map Text Text

-- The value that checkedTimeStampSet stores; `now` is what currentTimeMicros returns.
abbrev pub checked_time_stamp_set : ℕ → ℕ → ℕ
checked_time_stamp_set now proposed = if proposed == 0 then now else proposed

abbrev pub has_key : {V : Type 0} → Text → Map Text V → Bool
has_key key m = elim (find key m) [ none ↦ false | some v ↦ true ]

-- The loop of userTimeKeys and userInfoKeys.
unfoldable pub collect_keys : {V : Type 0} → Map Text V → KeySet Text → KeySet Text
collect_keys [] keys = keys
collect_keys ((key, v) ∷ m) keys = collect_keys m (insert key tt keys)

-- std::map::operator==
unfoldable pub entries_eq : {V : Type 0} → (V → V → Bool) → Map Text V → Map Text V → Bool
entries_eq eq [] [] = true
entries_eq eq [] ((k, w) ∷ n) = false
entries_eq eq ((j, v) ∷ m) [] = false
entries_eq eq ((j, v) ∷ m) ((k, w) ∷ n) = text_eq j k && eq v w && entries_eq eq m n

module _ {Uuid : Type 0} where
  -- MetaData::MetaData(); `nil` is UUID(false).
  abbrev pub new_meta_data : Uuid → ℕ → MetaData Uuid
  new_meta_data nil now = record {
    sender_id = nil;
    create_time = now;
    send_time = 0;
    receive_time = 0;
    deliver_time = 0;
    user_times = [];
    user_infos = [];
  }

  abbrev pub set_sender_id : Uuid → MetaData Uuid → MetaData Uuid
  set_sender_id id m = record m { sender_id = id }

  abbrev pub set_create_time : ℕ → ℕ → MetaData Uuid → MetaData Uuid
  set_create_time now time m = record m { create_time = checked_time_stamp_set now time }

  abbrev pub set_send_time : ℕ → ℕ → MetaData Uuid → MetaData Uuid
  set_send_time now time m = record m { send_time = checked_time_stamp_set now time }

  abbrev pub set_receive_time : ℕ → ℕ → MetaData Uuid → MetaData Uuid
  set_receive_time now time m = record m { receive_time = checked_time_stamp_set now time }

  abbrev pub set_deliver_time : ℕ → ℕ → MetaData Uuid → MetaData Uuid
  set_deliver_time now time m = record m { deliver_time = checked_time_stamp_set now time }

  unfoldable pub user_time_keys : MetaData Uuid → KeySet Text
  user_time_keys m = collect_keys m.user_times []

  abbrev pub has_user_time : Text → MetaData Uuid → Bool
  has_user_time key m = has_key key m.user_times

  -- `none` is invalid_argument.
  abbrev pub get_user_time : Text → MetaData Uuid → Option ℕ
  get_user_time key m = find key m.user_times

  abbrev pub set_user_time : ℕ → Text → ℕ → MetaData Uuid → MetaData Uuid
  set_user_time now key time m = record m {
    user_times = insert key (checked_time_stamp_set now time) (erase key m.user_times);
  }

  unfoldable pub user_info_keys : MetaData Uuid → KeySet Text
  user_info_keys m = collect_keys m.user_infos []

  abbrev pub has_user_info : Text → MetaData Uuid → Bool
  has_user_info key m = has_key key m.user_infos

  abbrev pub get_user_info : Text → MetaData Uuid → Option Text
  get_user_info key m = find key m.user_infos

  abbrev pub set_user_info : Text → Text → MetaData Uuid → MetaData Uuid
  set_user_info key value m = record m { user_infos = insert key value (erase key m.user_infos) }

  unfoldable pub meta_data_eq : ⦃o : Ord Uuid⦄ → MetaData Uuid → MetaData Uuid → Bool
  meta_data_eq ⦃o⦄ m other =
      o.beq m.sender_id other.sender_id
      && m.create_time == other.create_time
      && m.send_time == other.send_time
      && m.receive_time == other.receive_time
      && m.deliver_time == other.deliver_time
      && entries_eq ◌==◌ m.user_times other.user_times
      && entries_eq text_eq m.user_infos other.user_infos
