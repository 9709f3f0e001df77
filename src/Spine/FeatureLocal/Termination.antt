-- ===== src/Spine/FeatureLocal/Termination.antt =====
-- When the loop that removes all subscriptions or bindings ends.
use openeebus.Prelude.{
  ℕ, zero, suc, ◌+◌, ◌-◌, if◌then◌else◌, true, ◌≡◌, refl, sym, subst, ap, ◌∙◌, Option, none, some,
  some-inj, List, [], ◌∷◌, length, get_elem?, arith,
}
use openeebus.Common.Error.{EebusError, is_ok}
use openeebus.Spine.Address.{FeatureAddress}
use openeebus.Spine.Message.{Datagram}
use openeebus.Spine.Sender.{Sent}
use openeebus.Spine.FeatureLocal.{FeatureLocal, World, Remote, Environment, sent_by}
use openeebus.Spine.FeatureLocal.Remotes.{
  Container, remote_of, remove_address, remove_remote, Loop, remove_all_remote, remove_with,
  Outcome, unless_empty,
}
use openeebus.Spine.FeatureLocal.Containers.{ContainerLaws}
use openeebus.Spine.FeatureLocal.Ready.{
  has_sender, Ready, AllReady, AllReady-sent_by, AllReady-remove, last_address,
}

add_one : (n : ℕ) → n + 1 ≡ suc n
add_one n = omega arith

suc-sub : (n : ℕ) → suc n - 1 ≡ n
suc-sub n = omega arith

module _ (c : Container) (laws : ContainerLaws c) (env : Environment) where
  abbrev after : ℕ → Outcome → Loop
  after rounds (fl, w, err) = remove_all_remote c env rounds fl w

  -- A round of the loop removes the last address.
  round :
      (rounds : ℕ) (fl : FeatureLocal) (w : World) (a l : FeatureAddress)
      (as' : List FeatureAddress)
      → c.addresses fl ≡ a ∷ as'
      → get_elem? (a ∷ as') (length as') ≡ some l
      → remove_all_remote c env (suc rounds) fl w ≡ after rounds (remove_remote c env fl w (some l))
  unfolding remove_all_remote
  round rounds fl w a l as' e g =
      ap
        (λ bs.
          unless_empty c env bs fl w
            (after rounds (remove_remote c env fl w (get_elem? bs (length bs - 1)))))
        e
      ∙ ap (λ o. after rounds (remove_remote c env fl w o))
          (ap (λ i. get_elem? (a ∷ as') i) (suc-sub (length as')) ∙ g)

  round-empty :
      (rounds : ℕ) (fl : FeatureLocal) (w : World)
      → c.addresses fl ≡ []
      → remove_all_remote c env (suc rounds) fl w ≡ Loop.left (c.with_addresses fl []) w
  unfolding remove_all_remote
  round-empty rounds fl w e =
      ap
        (λ bs.
          unless_empty c env bs fl w
            (after rounds (remove_remote c env fl w (get_elem? bs (length bs - 1)))))
        e
      ∙ ap (λ f. Loop.left f w) (sym (laws.set-get fl) ∙ ap (c.with_addresses fl) e)

  remove-known :
      (fl : FeatureLocal) (w : World) (l : FeatureAddress) (r : Remote)
      → ((d : Datagram) → env.printable d ≡ true)
      → remote_of w (some l) ≡ some r
      → r.sender.has_writer ≡ true
      → (sent : Sent) × (sent.sender.has_writer ≡ true)
        × (remove_remote c env fl w (some l) ≡ (
          c.with_addresses fl (remove_address (c.addresses fl) l),
          sent_by w r.device.ski sent,
          EebusError.ok,
        ))
  unfolding remove_remote is_ok
  remove-known fl w l r printable known writer =
      let sent = c.uncall env r.sender (some fl.address) (some l) in
      let (fine, writer') = laws.uncall-ok env printable r.sender fl.address l writer in
      (
        sent,
        writer',
        ap (remove_with c env fl w (some l)) known
            ∙ ap
                (λ err.
                  if is_ok err
                  then (
                    c.with_addresses fl (remove_address (c.addresses fl) l),
                    sent_by w r.device.ski sent,
                    EebusError.ok,
                  )
                  else (fl, sent_by w r.device.ski sent, err))
                fine,
      )

  known_of_Ready :
      (w : World) (l : FeatureAddress)
      → Ready w l
      → (r : Remote) × (remote_of w (some l) ≡ some r) × (r.sender.has_writer ≡ true)
  known_of_Ready w l = go (remote_of w (some l))
    where
      go :
          (o : Option Remote)
          → has_sender o ≡ true
          → (r : Remote) × (o ≡ some r) × (r.sender.has_writer ≡ true)
      go none h = cc
      go (some r) h = (r, refl, h)

  AllReady-get :
      (w : World) (as' : List FeatureAddress) (i : ℕ) (l : FeatureAddress)
      → AllReady w as'
      → get_elem? as' i ≡ some l
      → Ready w l
  AllReady-get w [] i l h g = cc
  AllReady-get w (a ∷ as') zero l (r, h) g = subst (Ready w) (some-inj g) r
  AllReady-get w (a ∷ as') (suc i) l (r, h) g = AllReady-get w as' i l h g

  ends :
      (k : ℕ) (fl : FeatureLocal) (w : World) (as' : List FeatureAddress)
      → c.addresses fl ≡ as'
      → length as' ≡ k
      → AllReady w as'
      → ((d : Datagram) → env.printable d ≡ true)
      → (w' : World) × (remove_all_remote c env (suc k) fl w
          ≡ Loop.left (c.with_addresses fl []) w')
  ends k fl w [] e n h printable = (w, round-empty k fl w e)
  ends zero fl w (a ∷ as') e n h printable = absurd (omega arith)
  ends (suc k) fl w (a ∷ as') e n h printable =
      let (l, g, len) = last_address a as' in
      let (r, known, writer) = known_of_Ready w l (AllReady-get w (a ∷ as') (length as') l h g) in
      let (sent, writer', step) = remove-known fl w l r printable known writer in
      let bs = remove_address (a ∷ as') l in
      let w1 = sent_by w r.device.ski sent in
      let (w', q) =
        ends k (c.with_addresses fl bs) w1 bs (laws.get-set fl bs) (omega (arith, len))
          (AllReady-sent_by w r.device.ski sent bs writer' (AllReady-remove w (a ∷ as') l h))
          printable in
      (
        w',
        round (suc k) fl w a l as' e g
            ∙ (ap (after (suc k))
                  (step ∙ ap (λ x. (c.with_addresses fl (remove_address x l), w1, EebusError.ok)) e)
                ∙ (q ∙ ap (λ f. Loop.left f w') (laws.set-set fl bs []))),
      )

  -- The loop that removes all subscriptions, or all bindings, of a feature ends, with none left, once
  -- every address belongs to a known device with a connection and messages can be printed: one
  -- round more than there are addresses is enough.
  pub remove_all_remote-ends :
      (fl : FeatureLocal) (w : World)
      → AllReady w (c.addresses fl)
      → ((d : Datagram) → env.printable d ≡ true)
      → (w' : World) × (remove_all_remote c env (length (c.addresses fl) + 1) fl w
          ≡ Loop.left (c.with_addresses fl []) w')
  remove_all_remote-ends fl w h printable =
      let (w', q) = ends (length (c.addresses fl)) fl w (c.addresses fl) refl refl h printable in
      (w', ap (λ n. remove_all_remote c env n fl w) (add_one (length (c.addresses fl))) ∙ q)

  remove_all_remote-zero :
      (fl : FeatureLocal) (w : World) → remove_all_remote c env zero fl w ≡ Loop.running fl w
  unfolding remove_all_remote
  remove_all_remote-zero fl w = refl

  remove-unknown :
      (fl : FeatureLocal) (w : World) (l : FeatureAddress)
      → remote_of w (some l) ≡ none
      → remove_remote c env fl w (some l) ≡ (fl, w, EebusError.no_change)
  unfolding remove_remote
  remove-unknown fl w l h = ap (remove_with c env fl w (some l)) h

  -- The same loop never ends once the last address belongs to a device that is not known: after any
  -- number of rounds it still runs, with the feature and the world, the log of what was sent
  -- included, as they were.
  pub remove_all_remote-stuck :
      (fl : FeatureLocal) (w : World) (a l : FeatureAddress) (as' : List FeatureAddress)
      → c.addresses fl ≡ a ∷ as'
      → get_elem? (a ∷ as') (length as') ≡ some l
      → remote_of w (some l) ≡ none
      → (rounds : ℕ) → remove_all_remote c env rounds fl w ≡ Loop.running fl w
  remove_all_remote-stuck fl w a l as' e g h zero = remove_all_remote-zero fl w
  remove_all_remote-stuck fl w a l as' e g h (suc rounds) =
      round rounds fl w a l as' e g
      ∙ (ap (after rounds) (remove-unknown fl w l h)
          ∙ remove_all_remote-stuck fl w a l as' e g h rounds)
