-- ===== src/Spine/FeatureLocal/Stale.antt =====
-- What a write to a remote feature without partial writes sends.
use openeebus.Prelude.{
  inl, inr, Option-cases, ℕ, false, ◌≡◌, refl, Option, none, some, List, [], ◌∷◌, arith,
}
use openeebus.Common.Error.{EebusError, is_ok}
use openeebus.Spine.Address.{FeatureAddress}
use openeebus.Spine.Device.{Feature}
use openeebus.Spine.Function.{Function, get_function, put_function, update_data}
use openeebus.Spine.Message.{Content, Cmd}
use openeebus.Spine.Sender.{plain}
use openeebus.Spine.FeatureLocal.{FeatureLocal, World, Cache, Environment, sender_of}
use openeebus.Spine.FeatureLocal.Exchange.{
  send_counted, functions_of, put_functions, remote_operations, remote_data, update_remote_data,
}
use openeebus.Spine.FeatureLocal.Requests.{send_write, writes_partial, write_to_remote}

put_function-same :
    (fs : List Function) (t : ℕ) (f : Function)
    → get_function fs t ≡ some f
    → put_function fs t f ≡ fs
unfolding get_function put_function
put_function-same [] t f h = cc
put_function-same (g ∷ fs) t f h = ground (arith, put_function-same fs t f)

put_functions-same :
    (cs : List Cache) (a : FeatureAddress) → put_functions cs a (functions_of cs a) ≡ cs
put_functions-same [] a = refl
put_functions-same (c ∷ cs) a = ground (arith, put_functions-same cs a)

module _ (env : Environment) (fl : FeatureLocal) (w : World) (ski : List ℕ) (dest : Feature) (t : ℕ)
    (f : Function) (known : get_function (functions_of w.caches dest.address) t ≡ some f) where
  nothing_updated :
      (new : Content)
      → update_remote_data env w dest.address t (some new) none none false ≡ (w, EebusError.ok)
  unfolding update_remote_data update_data
  nothing_updated new =
      rw
        (
          known,
          put_function-same (functions_of w.caches dest.address) t f known,
          put_functions-same w.caches dest.address,
        )
        refl

  -- Without a sender nothing is sent.
  not_sent :
      (cb : Option ℕ)
      → sender_of w.remotes ski ≡ none
      → (cmd : Cmd) → send_write env fl w ski dest t cb cmd ≡ (fl, w, EebusError.init)
  unfolding send_counted is_ok
  not_sent none absent cmd = rw absent refl
  not_sent (some cb) absent cmd = rw absent refl

  -- A write of any data, with any filters, to a function of a remote feature that does not write
  -- partially sends the data that was kept of the remote function before, not the data given.
  pub write_to_remote-stale :
      (new : Content) (partial delete cb : Option ℕ) (d : ℕ)
      → writes_partial env f.operations ≡ false
      → write_to_remote env fl w ski dest t (some new) partial delete cb d
        ≡ send_write env fl w ski dest t cb (plain t (Content.function_data f.content))
  unfolding write_to_remote remote_operations remote_data is_ok
  write_to_remote-stale new partial delete cb d whole =
      elim (Option-cases (sender_of w.remotes ski)) [
        | inl absent ↦
            rw (absent, not_sent cb absent (plain t (Content.function_data f.content))) refl
        | inr (s, up) ↦ rw (up, known, whole, nothing_updated new, known) refl
      ]
