-- ===== src/State/Store.antt =====
-- `StateWrapper` and the file behind it: `StateWrapper::update` (state.rs), `Repo::load_state` and
-- `Repo::write_state` (repo.rs). The disk is a parameter: the file may be missing or not parse, a
-- write may fail, and what a successful write has stored is read back.
use datum_connect.Base.{
  ℕ, ◌+◌, ◌≡◌, ◌↔◌, Bool, true, Option, arith, if◌then◌else◌, option_eq, nat_eq, text_eq, Result,
  ok, err, is_ok,
}
use datum_connect.Text.{Text}
use datum_connect.State.{State, ProxyState, default_state, set_proxy, remove_proxy}

pub record Disk : Type 1 where
  pub Content : Type 0
  -- The state file's path exists.
  pub exists : Content → Bool
  -- `State::from_file`
  pub read : Content → Result State
  -- `State::write_to_file`
  pub write : State → Content → Content × Result (Unit {0})

-- Documented behaviour of the file system and of the YAML library.
pub record IsLawful (D : Disk) : Type 0 where
  pub exists-write :
      (s : State) (c : D.Content) → (D.write s c).1 ≡ ok tt → D.exists (D.write s c).0 ≡ true
  pub read-write :
      (s : State) (c : D.Content) → (D.write s c).1 ≡ ok tt → D.read (D.write s c).0 ≡ ok s

module _ (D : Disk) where
  -- `notified` counts the calls of `notify_waiters`.
  pub record StateWrapper : Type 0 where
    pub inner : State
    pub notified : ℕ
    pub disk : D.Content

  -- `StateWrapper::new`
  abbrev pub new_wrapper : State → D.Content → StateWrapper
  new_wrapper s c = record { inner = s; notified = 0; disk = c }

  -- The new state is stored before the file is written.
  unfoldable pub update :
      {R : Type 0} → StateWrapper → (State → State × R) → StateWrapper × Result R
  update w f =
      let (inner, res) = f w.inner in
      let (disk, written) = D.write inner w.disk in
      elim written [
        | err e ↦ (record w { inner = inner; disk = disk }, err e)
        | ok _ ↦ (record { inner = inner; notified = w.notified + 1; disk = disk }, ok res)
      ]

  -- `Repo::load_state`
  unfoldable pub load_state : D.Content → D.Content × Result StateWrapper
  load_state c =
      if D.exists c
      then (c, elim (D.read c) [ err e ↦ err e | ok s ↦ ok (new_wrapper s c) ])
      else (let (c', written) = D.write default_state c in
          (c', elim written [ err e ↦ err e | ok _ ↦ ok (new_wrapper default_state c') ]))

  -- `ListenNode::set_proxy` and `ListenNode::set_proxy_state` (node.rs)
  unfoldable pub set_proxy_state : StateWrapper → ProxyState → StateWrapper × Result (Unit {0})
  set_proxy_state w p = update w (λ s. (set_proxy s p, tt))

  -- `ListenNode::remove_proxy` and `ListenNode::remove_proxy_state` (node.rs)
  unfoldable pub remove_proxy_state :
      StateWrapper → Text → StateWrapper × Result (Option ProxyState)
  remove_proxy_state w i = update w (λ s. remove_proxy s i)

  -- Whether or not the file could be written, the node goes on with the new state, and the waiters
  -- are notified of it exactly if the write succeeded.
  pub update_lem :
      {R : Type 0} (w : StateWrapper) (f : State → State × R)
      → ((update w f).0.inner ≡ (f w.inner).0)
        × (((update w f).1 ≡ ok (f w.inner).1) ↔ ((D.write (f w.inner).0 w.disk).1 ≡ ok tt))
        × ((update w f).0.notified ≡ (if is_ok (update w f).1 then w.notified + 1 else w.notified))
  unfolding update
  update_lem w f = ground arith

  -- After an update that succeeded, a restart loads the state that the node had.
  pub load_state-update :
      IsLawful D
      → {R : Type 0} (w : StateWrapper) (f : State → State × R) (r : R) → (update w f).1 ≡ ok r
      → let w' = (update w f).0 in load_state w'.disk ≡ (w'.disk, ok (new_wrapper w'.inner w'.disk))
  unfolding update load_state
  load_state-update L w f r h =
      ground (arith, L.exists-write (f w.inner).0 w.disk, L.read-write (f w.inner).0 w.disk)
