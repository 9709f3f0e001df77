-- ===== src/Spine/FeatureLocal/Remotes.antt =====
-- The subscriptions and bindings that a local feature holds on remote ones: the container of
-- src/spine/feature/feature_address_container.c, and the operations of feature_local.c on it.
use openeebus.Prelude.{
  ℕ, zero, suc, ◌-◌, if◌then◌else◌, Bool, true, false, Option, none, some, List, [], ◌∷◌, ◌++◌,
  length, get_elem?,
}
use openeebus.Common.Error.{EebusError, is_ok}
use openeebus.Spine.Address.{FeatureAddress, compare}
use openeebus.Spine.Device.{is_server}
use openeebus.Spine.Pending.{keep}
use openeebus.Spine.Pending.Reply.{is_device}
use openeebus.Spine.Pending.Reply
use openeebus.Spine.Sender.{Sender, Sent, call_subscribe, call_unsubscribe, call_bind, call_unbind}
use openeebus.Spine.FeatureLocal.{
  FeatureLocal, World, Remote, Environment, sent_by, remote_with_address,
}

-- `FeatureAddressContainerFind`: whether the address is there.
unfoldable pub contains : List FeatureAddress → FeatureAddress → Bool
contains [] a = false
contains (b ∷ bs) a = if compare b a then true else contains bs a

-- `FeatureAddressContainerAdd`.
unfoldable pub add_address : List FeatureAddress → FeatureAddress → List FeatureAddress
add_address bs a = if contains bs a then bs else bs ++ a ∷ []

-- `FeatureAddressContainerRemove`: the first address that is equal.
unfoldable pub remove_address : List FeatureAddress → FeatureAddress → List FeatureAddress
remove_address [] a = []
remove_address (b ∷ bs) a = if compare b a then bs else b ∷ remove_address bs a

-- `FeatureAddressContainerRemoveForDevice` of a device that is not NULL.
unfoldable pub remove_for_device : List FeatureAddress → List ℕ → List FeatureAddress
remove_for_device bs d = keep (λ (a : FeatureAddress). is_device a.device d) bs

-- `FeatureLocalCleanRemoteDeviceCaches`; the pending results stay.
abbrev clean_for : FeatureLocal → Option (List ℕ) → FeatureLocal
clean_for fl none = fl
clean_for fl (some d) = record fl {
  subscriptions = remove_for_device fl.subscriptions d;
  bindings = remove_for_device fl.bindings d;
  pending_replies = Reply.remove_for_device fl.pending_replies (some d);
}

unfoldable pub clean_remote_device_caches : FeatureLocal → Option (List ℕ) → FeatureLocal
clean_remote_device_caches fl device = clean_for fl device

-- The loop after a number of rounds: it has been left, or still runs, in a state.
pub data Loop : Type 0 where
  left running : FeatureLocal → World → Loop

abbrev pub Outcome : Type 0
Outcome = FeatureLocal × World × EebusError

-- The subscriptions and the bindings of a feature are treated alike.
pub record Container : Type 0 where
  pub addresses : FeatureLocal → List FeatureAddress
  pub with_addresses : FeatureLocal → List FeatureAddress → FeatureLocal
  pub call : Environment → ℕ → Sender → Option FeatureAddress → Option FeatureAddress → Sent
  pub uncall : Environment → Sender → Option FeatureAddress → Option FeatureAddress → Sent

abbrev pub subscription_container : Container
subscription_container = record {
  addresses = λ fl. fl.subscriptions;
  with_addresses = λ fl as'. record fl { subscriptions = as' };
  call = λ env t s src dst. call_subscribe env.printable env.types s src dst t;
  uncall = λ env s src dst. call_unsubscribe env.printable env.types s src dst;
}

abbrev pub binding_container : Container
binding_container = record {
  addresses = λ fl. fl.bindings;
  with_addresses = λ fl as'. record fl { bindings = as' };
  call = λ env t s src dst. call_bind env.printable env.types s src dst t;
  uncall = λ env s src dst. call_unbind env.printable env.types s src dst;
}

-- `GetRemoteDeviceSender`: the device with the sender; the address may be NULL.
unfoldable pub remote_of : World → Option FeatureAddress → Option Remote
remote_of w none = none
remote_of w (some a) = remote_with_address w.remotes a.device

module _ (c : Container) (env : Environment) where
  abbrev pub called :
      FeatureLocal
      → World
      → FeatureAddress
      → Remote
      → Sent
      → (List FeatureAddress → List FeatureAddress)
      → Outcome
  called fl w a r sent change =
      let w' = sent_by w r.device.ski sent in
      if is_ok sent.error
      then (c.with_addresses fl (change (c.addresses fl)), w', EebusError.ok)
      else (fl, w', sent.error)

  abbrev add_with : FeatureLocal → World → Option FeatureAddress → Option Remote → Outcome
  add_with fl w none r = (fl, w, EebusError.no_change)
  add_with fl w (some a) none = (fl, w, EebusError.no_change)
  add_with fl w (some a) (some r) =
      called fl w a r (c.call env fl.feature_type r.sender (some fl.address) (some a))
        (λ as'. add_address as' a)

  -- `FeatureLocalSubscribeToRemote` and `FeatureLocalBindToRemote`.
  unfoldable pub add_to_remote : FeatureLocal → World → Option FeatureAddress → Outcome
  add_to_remote fl w a =
      if is_server fl.role then (fl, w, EebusError.no_change) else add_with fl w a (remote_of w a)

  abbrev pub remove_with : FeatureLocal → World → Option FeatureAddress → Option Remote → Outcome
  remove_with fl w none r = (fl, w, EebusError.no_change)
  remove_with fl w (some a) none = (fl, w, EebusError.no_change)
  remove_with fl w (some a) (some r) =
      called fl w a r (c.uncall env r.sender (some fl.address) (some a))
        (λ as'. remove_address as' a)

  -- `FeatureLocalRemoveRemoteSubscription` and `FeatureLocalRemoveRemoteBinding`.
  unfoldable pub remove_remote : FeatureLocal → World → Option FeatureAddress → Outcome
  remove_remote fl w a = remove_with fl w a (remote_of w a)

  -- The test of the loop for an empty container.
  abbrev pub unless_empty : List FeatureAddress → FeatureLocal → World → Loop → Loop
  unless_empty [] fl w rest = left fl w
  unless_empty (_ ∷ _) fl w rest = rest

  -- The loop of `FeatureLocalRemoveAllRemoteSubscriptions` and `FeatureLocalRemoveAllRemoteBindings`
  -- for a number of rounds, which ignores the error of a removal.
  unfoldable pub remove_all_remote : ℕ → FeatureLocal → World → Loop
  remove_all_remote zero fl w = running fl w
  remove_all_remote (suc rounds) fl w =
      let n = length (c.addresses fl) in
      let (fl', w', err) = remove_remote fl w (get_elem? (c.addresses fl) (n - 1)) in
      let rest = remove_all_remote rounds fl' w' in unless_empty (c.addresses fl) fl w rest
