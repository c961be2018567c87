-- ===== src/Service/Observed.antt =====
-- slimx_agent/service.py, `_bridge`: the observer only observes.
use slimx_agent.Prelude.{
  ◌≡◌, refl, ap, sym, ◌∙◌, subst, false, List, [], ◌∷◌, ◌++◌, append_assoc, append-nil, inl, inr,
  Bool-cases,
}
use slimx_agent.Service.Bridge.{
  Bridge, opened, publish, publish_closed, publish_end, publish_end_closed, ends_unheard, deliver,
  leave, Move, yields, yields_unheard, ends, delivers, keeps_alive, returns, disconnects, Reached,
  begun, after,
}

-- The drive loses no item. The observer has got, in order, a first part of what the drive yielded,
-- with the queue behind it, and as long as it is there nothing is lost.
pub record IsFaithful {T : Type 0} (items : List T) (s : Bridge T) : Type 0 where
  pub drives_all : s.driven ++ s.rest ≡ items
  pub lost : List T
  pub observed : (s.delivered ++ s.queue) ++ lost ≡ s.driven
  pub nothing_lost : s.observer_gone ≡ false → lost ≡ []

module _ {T : Type 0} (items : List T) where
  shift : (d r : List T) (x : T) → d ++ x ∷ r ≡ (d ++ x ∷ []) ++ r
  shift d r x = sym (append_assoc d (x ∷ []) r)

  drives_on :
      (x : T) (r : List T) (s : Bridge T)
      → s.rest ≡ x ∷ r
      → IsFaithful items s
      → (s.driven ++ x ∷ []) ++ r ≡ items
  drives_on x r s e f =
      sym (shift s.driven r x) ∙ ap (λ (l : List T). s.driven ++ l) (sym e) ∙ f.drives_all

  publish-IsFaithful :
      (x : T) (r : List T) (s : Bridge T)
      → s.rest ≡ x ∷ r
      → IsFaithful items s
      → IsFaithful items (publish x r s)
  unfolding publish
  publish-IsFaithful x r s e f = elim (Bool-cases s.observer_gone) [
    | inl gone ↦ rw gone (record {
      drives_all = drives_on x r s e f;
      lost = f.lost ++ x ∷ [];
      observed =
          sym (append_assoc (s.delivered ++ s.queue) f.lost (x ∷ []))
          ∙ ap (λ (l : List T). l ++ x ∷ []) f.observed;
      nothing_lost = λ h. cc;
    })
    | inr here ↦ rw here (record {
      drives_all = drives_on x r s e f;
      lost = [];
      observed =
          append-nil (s.delivered ++ (s.queue ++ x ∷ []))
          ∙ sym (append_assoc s.delivered s.queue (x ∷ []))
          ∙ ap (λ (l : List T). l ++ x ∷ [])
              (sym (append-nil (s.delivered ++ s.queue))
                ∙ ap (λ (l : List T). (s.delivered ++ s.queue) ++ l) (sym (f.nothing_lost here))
                ∙ f.observed);
      nothing_lost = λ h. refl;
    })
  ]

  closed-IsFaithful :
      (x : T) (r : List T) (s : Bridge T)
      → s.rest ≡ x ∷ r
      → IsFaithful items s
      → IsFaithful items (publish_closed x r s)
  unfolding publish_closed
  closed-IsFaithful x r s e f = record {
    drives_all = drives_on x r s e f;
    lost = f.lost ++ x ∷ [];
    observed =
        sym (append_assoc (s.delivered ++ s.queue) f.lost (x ∷ []))
        ∙ ap (λ (l : List T). l ++ x ∷ []) f.observed;
    nothing_lost = λ h. cc;
  }

  deliver-IsFaithful :
      (x : T) (q : List T) (s : Bridge T)
      → s.queue ≡ x ∷ q
      → IsFaithful items s
      → IsFaithful items (deliver x q s)
  unfolding deliver
  deliver-IsFaithful x q s e f = record {
    drives_all = f.drives_all;
    lost = f.lost;
    observed =
        ap (λ (l : List T). l ++ f.lost)
          (sym (shift s.delivered q x) ∙ ap (λ (l : List T). s.delivered ++ l) (sym e))
        ∙ f.observed;
    nothing_lost = f.nothing_lost;
  }

  end-IsFaithful : (s : Bridge T) → IsFaithful items s → IsFaithful items (publish_end s)
  unfolding publish_end
  end-IsFaithful s f = elim (Bool-cases s.observer_gone) [
    | inl gone ↦ rw gone (record {
      drives_all = f.drives_all;
      lost = f.lost;
      observed = f.observed;
      nothing_lost = λ h. cc;
    })
    | inr here ↦ rw here (record {
      drives_all = f.drives_all;
      lost = f.lost;
      observed = f.observed;
      nothing_lost = λ h. f.nothing_lost here;
    })
  ]

  end_closed-IsFaithful :
      (s : Bridge T) → IsFaithful items s → IsFaithful items (publish_end_closed s)
  unfolding publish_end_closed
  end_closed-IsFaithful s f = record {
    drives_all = f.drives_all;
    lost = f.lost;
    observed = f.observed;
    nothing_lost = λ h. cc;
  }

  leave-IsFaithful : (s : Bridge T) → IsFaithful items s → IsFaithful items (leave s)
  unfolding leave
  leave-IsFaithful s f = record {
    drives_all = f.drives_all;
    lost = f.lost;
    observed = f.observed;
    nothing_lost = λ h. cc;
  }

  moved : (s s' : Bridge T) → s' ≡ s → IsFaithful items s → IsFaithful items s'
  moved s s' e f = subst (λ t. IsFaithful items t) (sym e) f

  Move-IsFaithful : (s s' : Bridge T) → Move s s' → IsFaithful items s → IsFaithful items s'
  Move-IsFaithful s s' (yields x r e h) f =
      moved (publish x r s) s' h (publish-IsFaithful x r s e f)
  Move-IsFaithful s s' (yields_unheard x r e h) f =
      moved (publish_closed x r s) s' h (closed-IsFaithful x r s e f)
  Move-IsFaithful s s' (ends e u h) f = moved (publish_end s) s' h (end-IsFaithful s f)
  Move-IsFaithful s s' (ends_unheard e u h) f =
      moved (publish_end_closed s) s' h (end_closed-IsFaithful s f)
  Move-IsFaithful s s' (delivers x q o e h) f =
      moved (deliver x q s) s' h (deliver-IsFaithful x q s e f)
  Move-IsFaithful s s' (keeps_alive o h) f = moved s s' h f
  Move-IsFaithful s s' (returns o e c h) f = moved (leave s) s' h (leave-IsFaithful s f)
  Move-IsFaithful s s' (disconnects o h) f = moved (leave s) s' h (leave-IsFaithful s f)

  opened-IsFaithful : IsFaithful items (opened items)
  opened-IsFaithful = record {
    drives_all = refl;
    lost = [];
    observed = refl;
    nothing_lost = λ h. refl;
  }

  -- Whatever the observer does and when, the drive yields the generator's items in their order and
  -- loses none: what it yielded followed by what is left is the generator's list. The observer has
  -- got a first part of what was yielded, the queue goes on from there, and as long as it is
  -- there nothing is lost.
  pub Reached-IsFaithful : (s : Bridge T) → Reached items s → IsFaithful items s
  Reached-IsFaithful s (begun _ e) = moved (opened items) s e opened-IsFaithful
  Reached-IsFaithful s (after before _ r h) =
      Move-IsFaithful before s h (Reached-IsFaithful before r)
