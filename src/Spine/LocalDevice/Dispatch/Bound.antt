-- ===== src/Spine/LocalDevice/Dispatch/Bound.antt =====
-- Writes with a binding: `HandleMsgBindingRequestCall` of
-- src/spine/node_management/node_management_binding.c and `ProcessCmd` of
-- src/spine/device/device_local.c.
use openeebus.Prelude.{
  ℕ, ◌≡◌, if◌then◌else◌, refl, subst, ◌∙◌, ap, Bool, true, false, Bool-cases, inl, inr, Option,
  none, some, List, [], ◌∷◌, arith,
}
use openeebus.Common.Error.{EebusError}
use openeebus.Spine.Address.{FeatureAddress, compare, compare_ptr}
use openeebus.Spine.Device.{Feature, DeviceRemote, local_feature, remote_feature}
use openeebus.Spine.FeatureLink.{
  FeatureLink, Search, missing, find, find_at, has_server, has_server_at, add,
}
use openeebus.Spine.Manager.{ElementChange, next_num}
use openeebus.Spine.Manager.Delete.{has_binding}
use openeebus.Spine.Manager.Request.{admits, add_binding}
use openeebus.Spine.Manager.RoundTrip.{find-add}
use openeebus.Spine.Message.{CommandClassifier, Content, Header, Cmd, Message}
use openeebus.Spine.FeatureLocal.{FeatureLocal, Environment}
use openeebus.Spine.FeatureLocal.Approval.{content_of}
use openeebus.Spine.LocalDevice.{LocalDevice, ManagementTypes, feature_at, with_events}
use openeebus.Spine.LocalDevice.NodeManagement.{Discovery, handle_binding_request}
use openeebus.Spine.LocalDevice.Dispatch.{process_cmd, handle_feature, message_for}

-- Without a link of a server feature the search finds nothing.
missing_at :
    (o : Option Feature) (client : Feature) (sa ca : FeatureAddress) (rest : Option Bool)
    (found_rest : Search)
    → has_server_at o (some sa) rest ≡ some false
    → (rest ≡ some false → found_rest ≡ missing)
    → find_at o client (some sa) ca found_rest ≡ missing
unfolding compare_ptr
missing_at none client sa ca rest found_rest h k = ground (arith, h)
missing_at (some server) client sa ca rest found_rest h k =
    elim (Bool-cases (compare sa server.address)) [
      | inl t ↦ absurd (ground (arith, h, t))
      | inr n ↦ rw (n, k (subst (λ b. (if b then some true else rest) ≡ some false) n h)) refl
    ]

has_server-find :
    (ls : List FeatureLink) (sa ca : FeatureAddress)
    → has_server ls (some sa) ≡ some false
    → find ls (some sa) ca ≡ missing
unfolding has_server find
has_server-find [] sa ca h = refl
has_server-find (l ∷ ls) sa ca h =
    missing_at l.server_feature l.client_feature sa ca (has_server ls (some sa))
      (find ls (some sa) ca) h (has_server-find ls sa ca)

module _ (env : Environment) (types : ManagementTypes) (discovery : Discovery) (d : LocalDevice)
    (r : DeviceRemote) (sa ca : FeatureAddress) (t : Option ℕ) (server client : Feature) where
  abbrev bound_link : FeatureLink
  bound_link = record {
    id = d.bindings.num;
    server_feature = some server;
    client_feature = client;
    client_ski = r.ski;
  }

  abbrev pub with_binding : LocalDevice
  with_binding = record d {
    bindings = record d.bindings {
      num = next_num d.bindings.num;
      entries = add d.bindings.entries bound_link;
    };
    world = with_events d.world (
        record {
          ski = r.ski;
          change_type = ElementChange.change_add;
          feature = some client;
          local_feature = some server;
        }
        ∷ []);
  }

  module _ (msg : Message) where
    request-with_binding :
        msg.cmd_classifier ≡ CommandClassifier.call
        → content_of msg.cmd
          ≡ some (
              Content.binding_request (
                some (record {
                  client_address = some ca;
                  server_address = some sa;
                  server_feature_type = t;
                })))
        → local_feature d.bindings.local_device (some sa) ≡ some server
        → remote_feature r ca ≡ some client
        → admits types.generic (some server) (some client) t ≡ true
        → has_server d.bindings.entries (some sa) ≡ some false
        → handle_binding_request env types discovery d r msg ≡ some (with_binding, EebusError.ok)
    unfolding handle_binding_request add_binding
    request-with_binding c q l f a b = rw (c, q, l, f, a, b) refl

  bound-has_binding :
      server.address ≡ sa
      → client.address ≡ ca
      → has_server d.bindings.entries (some sa) ≡ some false
      → has_binding with_binding.bindings sa ca ≡ some true
  unfolding has_binding
  bound-has_binding p q b =
      rw
        (
          find-add sa ca d.bindings.entries bound_link server refl p q
              (has_server-find d.bindings.entries sa ca b),
          has_binding,
        )
        refl

  write-with_binding :
      (r' : DeviceRemote) (h : Header) (src : FeatureAddress) (fl : FeatureLocal) (f : Feature)
      (cmd : Option Cmd)
      → h.cmd_classifier ≡ some CommandClassifier.write
      → h.src_addr ≡ some src
      → feature_at d h.dest_addr ≡ some fl
      → remote_feature r' src ≡ some f
      → has_binding with_binding.bindings fl.address f.address ≡ some true
      → process_cmd env types discovery with_binding r' h cmd
        ≡ handle_feature env types discovery with_binding fl r'
            (message_for env types discovery r' h cmd f CommandClassifier.write)
  unfolding process_cmd feature_at
  write-with_binding r' h src fl f cmd w s l g b = rw (l, s, g, w, b) refl

  -- A call that requests a binding to a server feature without one, of features that are found by the
  -- addresses of the request, carry these addresses themselves and match the requested type, if any,
  -- adds the binding. In the state right after the call a write to a local feature with the server's
  -- address is handed to it if the remote feature that sends it has the client's address, on
  -- whatever remote device.
  pub binding_request-write :
      (msg : Message) (r' : DeviceRemote) (h : Header) (src : FeatureAddress) (fl : FeatureLocal)
      (f : Feature) (cmd : Option Cmd)
      → msg.cmd_classifier ≡ CommandClassifier.call
      → content_of msg.cmd
        ≡ some (
            Content.binding_request (
              some (record {
                client_address = some ca;
                server_address = some sa;
                server_feature_type = t;
              })))
      → local_feature d.bindings.local_device (some sa) ≡ some server
      → remote_feature r ca ≡ some client
      → admits types.generic (some server) (some client) t ≡ true
      → has_server d.bindings.entries (some sa) ≡ some false
      → server.address ≡ sa
      → client.address ≡ ca
      → h.cmd_classifier ≡ some CommandClassifier.write
      → h.src_addr ≡ some src
      → feature_at d h.dest_addr ≡ some fl
      → remote_feature r' src ≡ some f
      → fl.address ≡ sa
      → f.address ≡ ca
      → (handle_binding_request env types discovery d r msg ≡ some (with_binding, EebusError.ok))
        × (process_cmd env types discovery with_binding r' h cmd
            ≡ handle_feature env types discovery with_binding fl r'
                (message_for env types discovery r' h cmd f CommandClassifier.write))
  binding_request-write msg r' h src fl f cmd c q lf rf a b p1 p2 w s l g e1 e2 = (
    request-with_binding msg c q lf rf a b,
    write-with_binding r' h src fl f cmd w s l g (
        ap (λ x. has_binding with_binding.bindings x f.address) e1
        ∙ ap (has_binding with_binding.bindings sa) e2
        ∙ bound-has_binding p1 p2 b),
  )
