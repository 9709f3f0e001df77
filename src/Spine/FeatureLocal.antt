-- ===== src/Spine/FeatureLocal.antt =====
-- A local feature, src/spine/feature/feature_local.c, and what its operations reach: the remote
-- devices with their senders, the data that is kept of remote features, and the log of what was sent,
-- published and called. The operations stand in the children.
pub mod Approval
pub mod Counting
pub mod Approvals
pub mod Repeated
pub mod Remotes
pub mod Containers
pub mod Ready
pub mod Termination
pub mod Exchange
pub mod Requests
pub mod Crossing
pub mod Stale
pub mod Tests
use openeebus.Prelude.{
  ℕ, ◌==◌, if◌then◌else◌, Bool, true, false, ◌&&◌, Option, none, some, List, [], ◌∷◌, ◌++◌,
}
use openeebus.Common.Error.{EebusError}
use openeebus.Spine.Address.{FeatureAddress, compare, same_list}
use openeebus.Spine.Device.{Feature, RoleType, DeviceRemote, remote_feature}
use openeebus.Spine.Function.{Function, DataAccess, get_function}
use openeebus.Spine.Manager.{EventPayload}
use openeebus.Spine.Message.{CommandClassifier, Header, Content, Cmd, Datagram, Message}
use openeebus.Spine.Pending.Reply.{PendingReply, ReplyCall}
use openeebus.Spine.Pending.Result.{PendingResult, ResultCall}
use openeebus.Spine.Pending.Write.{PendingWrite}
use openeebus.Spine.Sender.{Sender, Sent, FunctionTypes}

-- `FeatureLocal`. A write approval callback is a number.
pub record FeatureLocal : Type 0 where
  pub address : FeatureAddress
  pub role : RoleType
  pub feature_type : ℕ
  pub functions : List Function
  pub wr_approval_cbs : List ℕ
  pub pending_replies : List PendingReply
  pub pending_results : List PendingResult
  pub pending_write_requests : List PendingWrite
  pub bindings : List FeatureAddress
  pub subscriptions : List FeatureAddress

-- A remote device with its sender.
pub record Remote : Type 0 where
  pub device : DeviceRemote
  pub sender : Sender

-- The functions of the remote feature with an address.
pub record Cache : Type 0 where
  pub address : FeatureAddress
  pub functions : List Function

pub data Effect : Type 0 where
  wrote : List ℕ → Datagram → Effect
  notified : FeatureAddress → Cmd → Effect
  published : List ℕ → FeatureAddress → ℕ → Option Content → CommandClassifier → Effect
  asked : ℕ → Effect
  expired : List ℕ → ℕ → Effect
  replied : ReplyCall → Effect
  resulted : ResultCall → Effect
  link_changed : EventPayload → Effect

pub record World : Type 0 where
  pub remotes : List Remote
  pub caches : List Cache
  pub log : List Effect

-- What a write approval callback does with a request while it is asked.
pub data Decision : Type 0 where
  later : Decision
  approved : Decision
  denied : ℕ → Decision

-- What the feature calls: the printing of datagrams, the data model and the application.
pub record Environment : Type 0 where
  pub printable : Datagram → Bool
  pub types : FunctionTypes
  pub access : DataAccess
  pub decide : ℕ → Message → Decision
  pub again_reply : ReplyCall → List PendingReply
  pub again_result : ResultCall → List PendingResult

abbrev pub logged : World → Effect → World
logged w e = record w { log = w.log ++ e ∷ [] }

-- `GetRemoteDeviceWithAddress`; the address may be NULL.
abbrev pub has_address : Option (List ℕ) → List ℕ → Bool
has_address none address = false
has_address (some d) address = same_list d address

abbrev pub find_remote : List Remote → List ℕ → Option Remote
find_remote [] address = none
find_remote (r ∷ rs) address =
    let rest = find_remote rs address in
    if has_address r.device.device_address address then some r else rest

unfoldable pub remote_with_address : List Remote → Option (List ℕ) → Option Remote
remote_with_address remotes none = none
remote_with_address remotes (some address) = find_remote remotes address

-- The sender of the device with an SKI, which a message's device has, and the remotes after a call.
abbrev pub sender_of : List Remote → List ℕ → Option Sender
sender_of [] ski = none
sender_of (r ∷ rs) ski =
    let rest = sender_of rs ski in if same_list r.device.ski ski then some r.sender else rest

abbrev pub put_sender : List Remote → List ℕ → Sender → List Remote
put_sender [] ski s = []
put_sender (r ∷ rs) ski s =
    if same_list r.device.ski ski then record r { sender = s } ∷ rs else r ∷ put_sender rs ski s

abbrev pub wrote_all : List ℕ → List Datagram → List Effect
wrote_all ski [] = []
wrote_all ski (d ∷ ds) = wrote ski d ∷ wrote_all ski ds

-- A call of a sender has been made.
abbrev pub sent_by : World → List ℕ → Sent → World
sent_by w ski sent = record w {
  remotes = put_sender w.remotes ski sent.sender;
  log = w.log ++ wrote_all ski sent.written;
}

-- `SEND_…(MessageGetSender(msg), …)`: the world after it and the error.
abbrev pub sending : World → List ℕ → Option Sender → (Sender → Sent) → World × EebusError
sending w ski none f = (w, EebusError.init)
sending w ski (some s) f = (sent_by w ski (f s), (f s).error)

unfoldable pub send : World → List ℕ → (Sender → Sent) → World × EebusError
send w ski f = sending w ski (sender_of w.remotes ski) f
