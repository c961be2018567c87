-- ===== src/Service/Bridge.antt =====
-- slimx_agent/service.py, `_bridge`: a worker thread drives the generator and publishes its items to
-- an observer, which may go away at any time. The two threads interleave as the steps do.
use slimx_agent.Prelude.{◌≡◌, Bool, true, false, List, [], ◌∷◌, ◌++◌, if◌then◌else◌}

-- `rest` is what the generator has still to yield, `driven` what it has yielded; `closing` says that
-- the end marker stands behind the queue; `observing` that the observer still reads.
pub record Bridge (T : Type 0) : Type 0 where
  pub rest : List T
  pub driven : List T
  pub finished : Bool
  pub queue : List T
  pub closing : Bool
  pub observer_gone : Bool
  pub observing : Bool
  pub delivered : List T

module _ {T : Type 0} where
  abbrev pub opened : List T → Bridge T
  opened items = record {
    rest = items;
    driven = [];
    finished = false;
    queue = [];
    closing = false;
    observer_gone = false;
    observing = true;
    delivered = [];
  }

  -- `publish((item,))` of the item that the generator has just yielded.
  unfoldable pub publish : T → List T → Bridge T → Bridge T
  publish x r s =
      let s' = record s { rest = r; driven = s.driven ++ x ∷ [] } in
      if s.observer_gone then s' else record s' { queue = s.queue ++ x ∷ [] }

  -- The same where the event loop has closed: nobody is observing any more.
  unfoldable pub publish_closed : T → List T → Bridge T → Bridge T
  publish_closed x r s = record s { rest = r; driven = s.driven ++ x ∷ []; observer_gone = true }

  -- `publish(None)`, once the generator has returned or raised.
  unfoldable pub publish_end : Bridge T → Bridge T
  publish_end s =
      let s' = record s { finished = true } in
      if s.observer_gone then s' else record s' { closing = true }

  -- The same where the event loop has closed.
  unfoldable pub publish_end_closed : Bridge T → Bridge T
  publish_end_closed s = record s { finished = true; observer_gone = true }

  unfoldable pub deliver : T → List T → Bridge T → Bridge T
  deliver x q s = record s { queue = q; delivered = s.delivered ++ x ∷ [] }

  -- The observer's `finally`.
  unfoldable pub leave : Bridge T → Bridge T
  leave s = record s { observing = false; observer_gone = true }

  pub data Move (s s' : Bridge T) : Type 0 where
    yields : (x : T) (r : List T) → s.rest ≡ x ∷ r → s' ≡ publish x r s → Move s s'
    yields_unheard : (x : T) (r : List T) → s.rest ≡ x ∷ r → s' ≡ publish_closed x r s → Move s s'
    ends : s.rest ≡ [] → s.finished ≡ false → s' ≡ publish_end s → Move s s'
    ends_unheard : s.rest ≡ [] → s.finished ≡ false → s' ≡ publish_end_closed s → Move s s'
    delivers :
        (x : T) (q : List T) → s.observing ≡ true → s.queue ≡ x ∷ q → s' ≡ deliver x q s → Move s s'
    -- A quiet interval: a keepalive is yielded, and nothing changes.
    keeps_alive : s.observing ≡ true → s' ≡ s → Move s s'
    returns : s.observing ≡ true → s.queue ≡ [] → s.closing ≡ true → s' ≡ leave s → Move s s'
    disconnects : s.observing ≡ true → s' ≡ leave s → Move s s'

  pub data Reached (items : List T) : Bridge T → Type 0 where
    begun : (s : Bridge T) → s ≡ opened items → Reached items s
    after : (before s : Bridge T) → Reached items before → Move before s → Reached items s
