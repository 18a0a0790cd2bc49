-- ===== src/MetaData/Laws.antt =====
-- The keys, the lookups and the equality of MetaData.
use rsb_cpp.Prelude.{
  ℕ, ◌≡◌, refl, ◌↔◌, arith, Bool, true, ◌||◌, [], ◌∷◌, some, ◌==◌, if◌then◌else◌, Text, text_eq,
  text_eq_refl, eq_of_text_eq,
}
use rsb_cpp.Maps.{Ord, Map, KeySet, find, insert, erase, text_ord, find-insert, find-erase}
use rsb_cpp.MetaData.{
  MetaData, checked_time_stamp_set, has_key, collect_keys, entries_eq, user_time_keys,
  has_user_time, get_user_time, set_user_time, meta_data_eq,
}

find-collect_keys :
    {V : Type 0} (key : Text) (m : Map Text V) (keys : KeySet Text)
    → has_key key (collect_keys m keys) ≡ (has_key key m || has_key key keys)
unfolding collect_keys find
find-collect_keys key [] keys = refl
find-collect_keys key ((j, v) ∷ m) keys =
    ground (arith, find-collect_keys key m (insert j tt keys), find-insert j key tt keys)

module _ {Uuid : Type 0} where
  -- The keys that userTimeKeys lists are those that hasUserTime knows.
  pub user_time_keys-has_user_time :
      (m : MetaData Uuid) (key : Text) → has_key key (user_time_keys m) ≡ has_user_time key m
  unfolding user_time_keys find
  user_time_keys-has_user_time m key = ground (arith, find-collect_keys key m.user_times [])

  -- After setUserTime, getUserTime gives under that key the time that was set, or the current time if
  -- that is zero, and under every other key what it gave before.
  pub get_user_time-set_user_time :
      (m : MetaData Uuid) (now time : ℕ) (key j : Text)
      → get_user_time j (set_user_time now key time m)
        ≡ (if text_eq key j then some (if time == 0 then now else time) else get_user_time j m)
  get_user_time-set_user_time m now time key j = ground (
    arith,
    find-insert key j (checked_time_stamp_set now time) (erase key m.user_times),
    find-erase key j m.user_times,
  )

entries_eq_refl :
    {V : Type 0} (eq : V → V → Bool)
    → ((v : V) → eq v v ≡ true)
    → (m : Map Text V) → entries_eq eq m m ≡ true
unfolding entries_eq
entries_eq_refl eq r [] = refl
entries_eq_refl eq r ((j, v) ∷ m) = ground (arith, text_eq_refl j, r v, entries_eq_refl eq r m)

eq_of_entries_eq :
    {V : Type 0} (eq : V → V → Bool)
    → ((v w : V) → eq v w ≡ true → v ≡ w)
    → (m n : Map Text V) → entries_eq eq m n ≡ true
    → m ≡ n
unfolding entries_eq
eq_of_entries_eq eq r [] [] h = refl
eq_of_entries_eq eq r [] ((k, w) ∷ n) h = cc
eq_of_entries_eq eq r ((j, v) ∷ m) [] h = cc
eq_of_entries_eq eq r ((j, v) ∷ m) ((k, w) ∷ n) h =
    let key : j ≡ k = eq_of_text_eq j k (ground arith) in
    let value : v ≡ w = r v w (ground arith) in
    let rest : m ≡ n = eq_of_entries_eq eq r m n (ground arith) in rw (key, value, rest)

num_eq : (v w : ℕ) → (v == w) ≡ true → v ≡ w
num_eq v w h = ground arith

num_eq_refl : (v : ℕ) → (v == v) ≡ true
num_eq_refl v = ground arith

-- operator== holds of exactly the equal meta data, where that of UUID is equality.
pub meta_data_eq_iff :
    {Uuid : Type 0} ⦃o : Ord Uuid⦄ (sound : (a b : Uuid) → o.beq a b ≡ true → a ≡ b)
    (m n : MetaData Uuid)
    → (meta_data_eq m n ≡ true) ↔ (m ≡ n)
unfolding meta_data_eq
meta_data_eq_iff {Uuid} ⦃o⦄ sound m n = (
  (λ h. same h),
  λ e. rw (← e) ground (
    arith,
    o.beq_refl m.sender_id,
    entries_eq_refl ◌==◌ num_eq_refl m.user_times,
    entries_eq_refl text_eq text_eq_refl m.user_infos,
  ),
)
  where
    same : meta_data_eq m n ≡ true → m ≡ n
    same h =
        let a : m.sender_id ≡ n.sender_id = sound m.sender_id n.sender_id (ground arith) in
        let b : m.create_time ≡ n.create_time = ground arith in
        let c : m.send_time ≡ n.send_time = ground arith in
        let d : m.receive_time ≡ n.receive_time = ground arith in
        let e : m.deliver_time ≡ n.deliver_time = ground arith in
        let f : m.user_times ≡ n.user_times =
          eq_of_entries_eq ◌==◌ num_eq m.user_times n.user_times (ground arith) in
        let g : m.user_infos ≡ n.user_infos =
          eq_of_entries_eq text_eq eq_of_text_eq m.user_infos n.user_infos (ground arith) in
        λ i. record {
          sender_id = a i;
          create_time = b i;
          send_time = c i;
          receive_time = d i;
          deliver_time = e i;
          user_times = f i;
          user_infos = g i;
        }
