-- ===== src/Spine/FeatureLocal/Tests.antt =====
-- Calls of a local feature.
use openeebus.Prelude.{
  ℕ, ◌≡◌, refl, ◌==◌, if◌then◌else◌, true, false, none, some, List, [], ◌∷◌, ◌++◌,
}
use openeebus.Common.Error.{EebusError, is_ok}
use openeebus.Spine.Address.{FeatureAddress, compare}
use openeebus.Spine.Device.{Feature, RoleType, DeviceRemote, remote_feature}
use openeebus.Spine.Function.{Function, Operations, get_function, update_data, create_notify_cmd}
use openeebus.Spine.Message.{CommandClassifier, Header, Content, Cmd, Message}
use openeebus.Spine.Pending.Reply.{create, fire}
use openeebus.Spine.Pending.Write.{PendingWrite, find, approve, is_write}
use openeebus.Spine.Pending.Write
use openeebus.Spine.Sender.{Sender, plain, result_success}
use openeebus.Spine.FeatureLocal.{
  FeatureLocal, World, Environment, Decision, remote_with_address, logged, asked, replied, send,
  notified, published,
}
use openeebus.Spine.FeatureLocal.Approval.{
  removed, process_write_internal, get_message, process_write,
}
use openeebus.Spine.FeatureLocal.Approvals.{approve_times, approve_times-write}
use openeebus.Spine.FeatureLocal.Repeated.{then_asked, repeated-written}
use openeebus.Spine.FeatureLocal.Remotes.{
  subscription_container, Loop, remove_all_remote, remote_of,
}
use openeebus.Spine.FeatureLocal.Containers.{subscription_laws}
use openeebus.Spine.FeatureLocal.Termination.{remove_all_remote-ends, remove_all_remote-stuck}
use openeebus.Spine.FeatureLocal.Exchange.{process_reply, remote_operations}
use openeebus.Spine.FeatureLocal.Requests.{write_to_remote, send_write}
use openeebus.Spine.FeatureLocal.Stale.{write_to_remote-stale}
use openeebus.Spine.FeatureLocal.Crossing.{answer, reads_both, reply-crossed}

abbrev own_address : FeatureAddress
own_address = record { device = some (1 ∷ []); entity = 1 ∷ []; feature = some 7 }

abbrev heat_address : FeatureAddress
heat_address = record { device = some (2 ∷ []); entity = 1 ∷ []; feature = some 4 }

abbrev wall_address : FeatureAddress
wall_address = record { device = some (3 ∷ []); entity = 1 ∷ []; feature = some 5 }

abbrev reading : Operations
reading = record { read = true; read_partial = false; write = true; write_partial = false }

abbrev limits : Function
limits = record { function_type = 30; content = 11; operations = some reading }

abbrev remote_at : FeatureAddress → Feature
remote_at a = record { address = a; role = RoleType.server; feature_type = 3 }

abbrev device_at : List ℕ → FeatureAddress → DeviceRemote
device_at ski a = record {
  ski = ski;
  device_address = a.device;
  entities =
      record { device = a.device; ids = a.entity; entity_type = 8; features = remote_at a ∷ [] }
      ∷ [];
}

abbrev fresh_sender : Sender
fresh_sender = record { msg_num = 0; has_writer = true }

abbrev network : World
network = record {
  remotes =
      record { device = device_at (8 ∷ []) heat_address; sender = fresh_sender }
      ∷ record { device = device_at (9 ∷ []) wall_address; sender = fresh_sender }
      ∷ [];
  caches =
      record { address = heat_address; functions = limits ∷ [] }
      ∷ record { address = wall_address; functions = limits ∷ [] }
      ∷ [];
  log = [];
}

abbrev own_feature : FeatureLocal
own_feature = record {
  address = own_address;
  role = RoleType.server;
  feature_type = 3;
  functions = limits ∷ [];
  wr_approval_cbs = 1 ∷ 2 ∷ [];
  pending_replies = [];
  pending_results = [];
  pending_write_requests = [];
  bindings = [];
  subscriptions = heat_address ∷ wall_address ∷ [];
}

abbrev deciding : ℕ → Message → Decision
deciding cb m = if cb == 1 then Decision.approved else Decision.later

abbrev env : Environment
env = record {
  printable = λ _. true;
  types = record {
    subscription_request_call = 1;
    subscription_delete_call = 2;
    binding_request_call = 3;
    binding_delete_call = 4;
    result_data_type = 5;
  };
  access = record {
    write_all = λ t new. (12, EebusError.ok);
    write_partial = λ t old new f. (13, EebusError.ok);
    delete_partial = λ t old f. 0;
  };
  decide = deciding;
  again_reply = λ _. [];
  again_result = λ _. [];
}

abbrev write_header : Header
write_header = record {
  spec_version = none;
  src_addr = some heat_address;
  dest_addr = some own_address;
  msg_cnt = some 6;
  msg_cnt_ref = none;
  cmd_classifier = some CommandClassifier.write;
  ack_request = some true;
}

abbrev new_limit : Cmd
new_limit = plain 30 (Content.function_data 99)

abbrev waiting_write : PendingWrite
waiting_write = Write.create (8 ∷ []) 6 CommandClassifier.write new_limit write_header heat_address

abbrev asked_feature : FeatureLocal
asked_feature = record own_feature { pending_write_requests = waiting_write ∷ [] }

abbrev write_message : Message
write_message = record {
  request_header = some write_header;
  cmd_classifier = CommandClassifier.write;
  cmd = some new_limit;
  feature_remote = remote_at heat_address;
  ski = 8 ∷ [];
}

-- The feature while its request has a number of approvals.
abbrev approved_times : ℕ → FeatureLocal
approved_times k = record own_feature {
  pending_write_requests = record waiting_write { num_approvals = k } ∷ [];
}

-- The request stands between two others.
abbrev other_write : ℕ → PendingWrite
other_write n = Write.create (8 ∷ []) n CommandClassifier.write new_limit write_header heat_address

abbrev crowded_feature : FeatureLocal
crowded_feature = record own_feature {
  pending_write_requests = other_write 5 ∷ waiting_write ∷ other_write 7 ∷ [];
}

abbrev limited : Function
limited = record limits { content = 12 }

approve_times-write_example :
    (approve_times env (8 ∷ []) 6 1 crowded_feature network ≡ (
      record crowded_feature {
        pending_write_requests =
            other_write 5 ∷ record waiting_write { num_approvals = 1 } ∷ other_write 7 ∷ [];
      },
      network,
    ))
    × (approve_times env (8 ∷ []) 6 2 crowded_feature network ≡ (
      record crowded_feature {
        functions = limited ∷ [];
        pending_write_requests = other_write 5 ∷ other_write 7 ∷ [];
      },
      (send
          (logged
            (logged network (
              notified own_address
                (create_notify_cmd limited (some (Content.function_data 99)) none none)))
            (published
              (8 ∷ [])
              heat_address
              30
              (some (Content.function_data 99))
              CommandClassifier.write))
          (8 ∷ [])
          (λ s. result_success env.printable env.types s (some write_header) (some own_address))).0,
    ))
unfolding find is_write Write.create remote_with_address remote_feature get_function update_data
    is_ok
approve_times-write_example =
    approve_times-write env (8 ∷ []) 6 crowded_feature network waiting_write (other_write 5 ∷ [])
      (other_write 7 ∷ []) refl refl refl refl
      (record { device = device_at (8 ∷ []) heat_address; sender = fresh_sender })
      (remote_at heat_address) [] [] limits limited EebusError.ok refl refl refl refl refl refl 1
      refl

repeated-written_example :
    (process_write env own_feature network write_message
      ≡ (approved_times 1, logged (logged network (asked 1)) (asked 2), EebusError.ok))
    × (process_write env
          (approved_times 1)
          (logged (logged network (asked 1)) (asked 2))
          write_message
        ≡ then_asked env own_feature network write_header new_limit
            (remote_at heat_address)
            (8 ∷ [])
            6
            1
            2
            (removed env (8 ∷ []) 6 (
              process_write_internal env
                (approved_times 2)
                (logged (logged (logged network (asked 1)) (asked 2)) (asked 1))
                write_message)))
unfolding find is_write approve Write.create get_message remote_with_address remote_feature
repeated-written_example =
    repeated-written env own_feature network write_header new_limit (remote_at heat_address)
      (8 ∷ []) 6 1 2 refl refl refl refl refl write_message refl

remove_all_remote-ends_example :
    (w' : World) × (remove_all_remote subscription_container env 3 own_feature network
      ≡ Loop.left (record own_feature { subscriptions = [] }) w')
unfolding remote_of remote_with_address
remove_all_remote-ends_example =
    remove_all_remote-ends subscription_container subscription_laws env own_feature network
      (refl, (refl, tt)) (λ _. refl)

-- The second device has disconnected.
abbrev smaller : World
smaller = record network {
  remotes = record { device = device_at (8 ∷ []) heat_address; sender = fresh_sender } ∷ [];
}

remove_all_remote-stuck_example :
    remove_all_remote subscription_container env 1000 own_feature smaller
    ≡ Loop.running own_feature smaller
unfolding remote_of remote_with_address
remove_all_remote-stuck_example =
    remove_all_remote-stuck subscription_container subscription_laws env own_feature smaller
      heat_address wall_address (wall_address ∷ []) refl refl refl 1000

write_to_remote-stale_example :
    write_to_remote env own_feature network
      (8 ∷ [])
      (remote_at heat_address)
      30
      (some (Content.function_data 99))
      none
      none
      none
      0
    ≡ send_write env own_feature network
        (8 ∷ [])
        (remote_at heat_address)
        30
        none
        (plain 30 (Content.function_data 11))
unfolding get_function compare
write_to_remote-stale_example =
    write_to_remote-stale env own_feature network (8 ∷ []) (remote_at heat_address) 30 limits refl
      (Content.function_data 99) none none none 0 refl

abbrev reply_header : Header
reply_header = record write_header {
  msg_cnt_ref = some 1;
  cmd_classifier = some CommandClassifier.reply;
}

-- The reply of the second device.
abbrev reply_message : Message
reply_message = record {
  request_header = some reply_header;
  cmd_classifier = CommandClassifier.reply;
  cmd = some (plain 30 (Content.function_data 55));
  feature_remote = remote_at wall_address;
  ski = 9 ∷ [];
}

reply-crossed_example :
    (w' : World) × (process_reply env
        (reads_both env
          (λ _. refl)
          own_feature
          network
          (8 ∷ [])
          (9 ∷ [])
          (remote_at heat_address)
          (remote_at wall_address)
          30
          21
          22).0
        (reads_both env
          (λ _. refl)
          own_feature
          network
          (8 ∷ [])
          (9 ∷ [])
          (remote_at heat_address)
          (remote_at wall_address)
          30
          21
          22).1
        reply_message
      ≡ (
        record own_feature { pending_replies = create 1 wall_address 30 none 22 ∷ [] },
        record w' {
          log =
              w'.log
              ++ replied (fire (answer reply_message 1) (create 1 heat_address 30 none 21)) ∷ [];
        },
        EebusError.ok,
      ))
unfolding get_function remote_operations compare update_data
reply-crossed_example =
    reply-crossed env (λ _. refl) own_feature network (8 ∷ []) (9 ∷ []) (remote_at heat_address)
      (remote_at wall_address) 30 21 22 limits reading reading fresh_sender fresh_sender
      reply_message limits refl refl refl refl refl refl refl refl refl refl refl refl refl refl
      (λ _. refl)
