-- ===== src/Spine/FeatureLocal/Containers.antt =====
-- The subscriptions and the bindings of a local feature as two containers with common laws,
-- src/spine/feature/feature_local.c.
use openeebus.Prelude.{true, ◌≡◌, refl, some, List}
use openeebus.Common.Error.{EebusError}
use openeebus.Spine.Address.{FeatureAddress}
use openeebus.Spine.Message.{Datagram}
use openeebus.Spine.Sender.{
  Sender, call_unsubscribe, call_unbind, send_node_management_call, send_spine_message,
}
use openeebus.Spine.FeatureLocal.{FeatureLocal, Environment}
use openeebus.Spine.FeatureLocal.Remotes.{Container, subscription_container, binding_container}

-- The laws of the two containers.
pub record ContainerLaws (c : Container) : Type 0 where
  pub get-set :
      (fl : FeatureLocal) (as' : List FeatureAddress) → c.addresses (c.with_addresses fl as') ≡ as'
  pub set-set :
      (fl : FeatureLocal) (as' bs : List FeatureAddress)
      → c.with_addresses (c.with_addresses fl as') bs ≡ c.with_addresses fl bs
  pub set-get : (fl : FeatureLocal) → c.with_addresses fl (c.addresses fl) ≡ fl
  pub address-set :
      (fl : FeatureLocal) (as' : List FeatureAddress)
      → (c.with_addresses fl as').address ≡ fl.address
  pub uncall-ok :
      (env : Environment)
      → ((d : Datagram) → env.printable d ≡ true)
      → (s : Sender) (src dst : FeatureAddress) → s.has_writer ≡ true
      → ((c.uncall env s (some src) (some dst)).error ≡ EebusError.ok)
        × ((c.uncall env s (some src) (some dst)).sender.has_writer ≡ true)

unsubscribe-ok :
    (env : Environment)
    → ((d : Datagram) → env.printable d ≡ true)
    → (s : Sender) (src dst : FeatureAddress) → s.has_writer ≡ true
    → ((call_unsubscribe env.printable env.types s (some src) (some dst)).error ≡ EebusError.ok)
      × ((call_unsubscribe env.printable env.types s (some src) (some dst)).sender.has_writer
          ≡ true)
unfolding call_unsubscribe send_node_management_call send_spine_message
unsubscribe-ok env h s src dst w = rw (w, h) (refl, refl)

unbind-ok :
    (env : Environment)
    → ((d : Datagram) → env.printable d ≡ true)
    → (s : Sender) (src dst : FeatureAddress) → s.has_writer ≡ true
    → ((call_unbind env.printable env.types s (some src) (some dst)).error ≡ EebusError.ok)
      × ((call_unbind env.printable env.types s (some src) (some dst)).sender.has_writer ≡ true)
unfolding call_unbind send_node_management_call send_spine_message
unbind-ok env h s src dst w = rw (w, h) (refl, refl)

pub subscription_laws : ContainerLaws subscription_container
subscription_laws = record {
  get-set = λ fl as'. refl;
  set-set = λ fl as' bs. refl;
  set-get = λ fl. refl;
  address-set = λ fl as'. refl;
  uncall-ok = unsubscribe-ok;
}

pub binding_laws : ContainerLaws binding_container
binding_laws = record {
  get-set = λ fl as'. refl;
  set-set = λ fl as' bs. refl;
  set-get = λ fl. refl;
  address-set = λ fl as'. refl;
  uncall-ok = unbind-ok;
}
