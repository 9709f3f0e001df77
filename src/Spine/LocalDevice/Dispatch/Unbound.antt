-- ===== src/Spine/LocalDevice/Dispatch/Unbound.antt =====
-- Writes without a binding, `ProcessDatagram` of src/spine/device/device_local.c.
use openeebus.Prelude.{ℕ, ◌≡◌, refl, ap, ◌∙◌, Option, some, false, List, ◌∷◌}
use openeebus.Common.Error.{EebusError, is_ok}
use openeebus.Spine.Address.{FeatureAddress}
use openeebus.Spine.Device.{Feature, remote_feature}
use openeebus.Spine.Manager.Delete.{has_binding}
use openeebus.Spine.Message.{CommandClassifier, Header, Cmd}
use openeebus.Spine.FeatureLocal.{FeatureLocal, Environment, Remote}
use openeebus.Spine.LocalDevice.{LocalDevice, ManagementTypes, feature_at, remote_with_ski}
use openeebus.Spine.LocalDevice.NodeManagement.{Discovery}
use openeebus.Spine.LocalDevice.Dispatch.{
  process_cmd, process_cmds, process_datagram, with_header_classifier, acknowledged,
}

module _ (env : Environment) (types : ManagementTypes) (discovery : Discovery) (d : LocalDevice)
    (h : Header) (fl : FeatureLocal) (r : Remote) (src : FeatureAddress) (f : Feature) where
  process_cmd-unbound :
      (cmd : Option Cmd)
      → h.cmd_classifier ≡ some CommandClassifier.write
      → h.src_addr ≡ some src
      → feature_at d h.dest_addr ≡ some fl
      → remote_feature r.device src ≡ some f
      → has_binding d.bindings fl.address f.address ≡ some false
      → process_cmd env types discovery d r.device h cmd ≡ some (d, EebusError.no_change)
  unfolding process_cmd
  process_cmd-unbound cmd w s l g b = rw (l, s, g, w, b) refl

  process_cmds-unbound :
      (ski : List ℕ) (cmd : Cmd) (cmds : List (Option Cmd))
      → h.cmd_classifier ≡ some CommandClassifier.write
      → h.src_addr ≡ some src
      → feature_at d h.dest_addr ≡ some fl
      → remote_with_ski d ski ≡ some r
      → remote_feature r.device src ≡ some f
      → has_binding d.bindings fl.address f.address ≡ some false
      → process_cmds env types discovery d ski h (some cmd ∷ cmds) ≡ some (d, EebusError.no_change)
  unfolding process_cmds is_ok
  process_cmds-unbound ski cmd cmds w s l k g b =
      rw (k, process_cmd-unbound (some cmd) w s l g b) refl

  -- A write datagram, the first command of which is not NULL, from a remote feature to a local
  -- feature that has no binding to it changes nothing and sends nothing, whatever its commands are,
  -- and its error is that of no change.
  pub process_datagram-unbound :
      (ski : List ℕ) (cmd : Cmd) (cmds : List (Option Cmd))
      → h.cmd_classifier ≡ some CommandClassifier.write
      → h.src_addr ≡ some src
      → feature_at d h.dest_addr ≡ some fl
      → remote_with_ski d ski ≡ some r
      → remote_feature r.device src ≡ some f
      → has_binding d.bindings fl.address f.address ≡ some false
      → process_datagram env types discovery d
          (some (record { header = some h; payload = some cmd ∷ cmds }))
          (some ski)
        ≡ some (d, EebusError.no_change)
  unfolding process_datagram is_ok
  process_datagram-unbound ski cmd cmds w s l k g b =
      ap (with_header_classifier env types discovery d (some ski) h (some cmd ∷ cmds)) w
      ∙ ap (acknowledged env types discovery ski h CommandClassifier.write)
          (process_cmds-unbound ski cmd cmds w s l k g b)
