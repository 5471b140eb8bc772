-- ===== src/Pcf/Client/Changes.antt =====
-- What an answer of the PCF does to the app sessions.
use mathlib.Core.List.{append-nil}
use rt_5gc_service_consumers.Common.{
  ℕ, Bool, true, false, List, [], ◌++◌, Option, none, some, ◌==◌, if◌then◌else◌, Run, ok, ◌≡◌, refl,
  sym, ◌∙◌, subst, Bool-cases, inl, inr, ==_iff, ==_self,
}
use rt_5gc_service_consumers.Pcf.Context.{
  AppSession, ChangeCall, PcfContext, deref_session, store_session, app_session_exists, call_of,
  change_call, change_callback_call, app_sess_remove,
}
use rt_5gc_service_consumers.Pcf.Context.Listed.{
  IsValid, view, exists-owner, store-IsValid, view-store,
}
use rt_5gc_service_consumers.Pcf.Context.Dropped.{
  Dropped, Dropped-IsValid, view-Dropped, app_sess_remove-Dropped,
}

-- The same app session with the same callbacks, whatever it has learnt.
abbrev pub Same : AppSession → AppSession → Type 0
Same s t =
    (t.pcf_session ≡ s.pcf_session)
    × (t.change_callback ≡ s.change_callback)
    × (t.change_user_data ≡ s.change_user_data)
    × (t.pcf_event_notifications ≡ s.pcf_event_notifications)

-- The life of an app session: what it becomes, and the calls that the application sees.
pub data Next (a : ℕ) (s : AppSession) (after : Option AppSession) (calls : List ChangeCall)
    : Type 0 where
  quiet : (t : AppSession) → Same s t → after ≡ some t → calls ≡ [] → Next a s after calls
  informed :
      (t : AppSession)
      → Same s t
      → after ≡ some t
      → calls ≡ change_call s (some a)
      → Next a s after calls
  failed :
      (t : AppSession)
      → Same s t
      → after ≡ some t
      → calls ≡ change_call s none
      → Next a s after calls
  ended : after ≡ none → calls ≡ change_call s none → Next a s after calls

-- The context changes in one app session only, by a step of its life.
pub record Changes (a : ℕ) (c d : PcfContext) : Type 0 where
  pub valid : IsValid d
  pub after : Option AppSession
  pub told : List ChangeCall
  pub next : Next a (c.app_session a) after told
  pub views : (b : ℕ) → view d b ≡ (if b == a then after else view c b)
  pub calls : d.calls ≡ c.calls ++ told

pub Same-refl : (s : AppSession) → Same s s
Same-refl s = (refl, refl, refl, refl)

Same-trans : (s t u : AppSession) → Same s t → Same t u → Same s u
Same-trans s t u h k = (k.0 ∙ h.0, k.1 ∙ h.1, k.2 ∙ h.2, k.3 ∙ h.3)

change_call-Same :
    (s t : AppSession) (object : Option ℕ) → Same s t → change_call t object ≡ change_call s object
change_call-Same s t object h = λ i. call_of (h.1 i) object (h.2 i)

Next-Same :
    (a : ℕ) (s t : AppSession) (after : Option AppSession) (k : List ChangeCall)
    → Same s t
    → Next a t after k
    → Next a s after k
Next-Same a s t after k h (quiet u i e f) = quiet u (Same-trans s t u h i) e f
Next-Same a s t after k h (informed u i e f) =
    informed u (Same-trans s t u h i) e (f ∙ change_call-Same s t (some a) h)
Next-Same a s t after k h (failed u i e f) =
    failed u (Same-trans s t u h i) e (f ∙ change_call-Same s t none h)
Next-Same a s t after k h (ended e f) = ended e (f ∙ change_call-Same s t none h)

same_else :
    (test : Bool) (x y z : Option AppSession)
    → (test ≡ false → y ≡ z)
    → (if test then x else y) ≡ (if test then x else z)
same_else true x y z h = refl
same_else false x y z h = h refl

-- A step after something was learnt is one step.
pub after_store-Changes :
    (a : ℕ) (t : AppSession) (c d : PcfContext)
    → app_session_exists a c ≡ true
    → Same (c.app_session a) t
    → Changes a (store_session a t c) d
    → Changes a c d
after_store-Changes a t c d e s w = record {
  valid = w.valid;
  after = w.after;
  told = w.told;
  next = Next-Same a (c.app_session a) t w.after w.told s (
      subst (λ (b : Bool). Next a (if b then t else c.app_session a) w.after w.told) (==_self a)
        w.next);
  views = λ b. w.views b ∙ same_else (b == a) w.after _ _ (λ h. view-store a t c b e ∙ rw h refl);
  calls = w.calls;
}

-- An app session that the context lists.
module _ (a : ℕ) (c : PcfContext) (v : IsValid c) (e : app_session_exists a c ≡ true) where
  pub alive : c.live a ≡ true
  alive = (exists-owner a c v e).2

  own_view : (b : ℕ) → view c b ≡ (if b == a then some (c.app_session a) else view c b)
  own_view b = elim (Bool-cases (b == a)) [
    | inl h ↦
        rw h (subst (λ x. view c x ≡ some (c.app_session a)) (sym ((==_iff b a).0 h)) (rw e refl))
    | inr h ↦ rw h refl
  ]

  pub nothing-Changes : Changes a c c
  nothing-Changes = record {
    valid = v;
    after = some (c.app_session a);
    told = [];
    next = quiet (c.app_session a) (Same-refl (c.app_session a)) refl refl;
    views = own_view;
    calls = sym (append-nil c.calls);
  }

  pub store-Changes :
      (t : AppSession) → Same (c.app_session a) t → Changes a c (store_session a t c)
  store-Changes t s = record {
    valid = store-IsValid a t c v s.0;
    after = some t;
    told = [];
    next = quiet t s refl refl;
    views = λ b. view-store a t c b e;
    calls = sym (append-nil c.calls);
  }

  abbrev pub told_of : List ChangeCall → PcfContext → PcfContext
  told_of k d = record d { calls = d.calls ++ k }

  pub informed-Changes :
      (t : AppSession)
      → Same (c.app_session a) t
      → Changes a c (told_of (change_call (c.app_session a) (some a)) (store_session a t c))
  unfolding app_session_exists
  informed-Changes t s = record {
    valid = record {
      owned = (store-IsValid a t c v s.0).owned;
      once = (store-IsValid a t c v s.0).once;
    };
    after = some t;
    told = change_call (c.app_session a) (some a);
    next = informed t s refl refl;
    views = λ b. view-store a t c b e;
    calls = refl;
  }

  pub failed-Changes : Changes a c (told_of (change_call (c.app_session a) none) c)
  unfolding app_session_exists
  failed-Changes = record {
    valid = record { owned = v.owned; once = v.once };
    after = some (c.app_session a);
    told = change_call (c.app_session a) none;
    next = failed (c.app_session a) (Same-refl (c.app_session a)) refl refl;
    views = own_view;
    calls = refl;
  }

  pub Dropped-Changes :
      (d : PcfContext)
      → Dropped a c d
      → d.calls ≡ c.calls ++ change_call (c.app_session a) none
      → Changes a c d
  Dropped-Changes d w k = record {
    valid = Dropped-IsValid a c d v w;
    after = none;
    told = change_call (c.app_session a) none;
    next = ended refl refl;
    views = view-Dropped a c d v w;
    calls = k;
  }

  pub removed : (d : PcfContext) × (app_sess_remove a c ≡ ok d) × Changes a c d
  removed = let (d, r, w, k) = app_sess_remove-Dropped a c v e in (d, r, Dropped-Changes d w k)

  abbrev pub Result : Run PcfContext → Type 0
  Result r = (d : PcfContext) × (r ≡ ok d) × Changes a c d

  pub nothing : Result (ok c)
  nothing = (c, refl, nothing-Changes)

  pub callback-told :
      (t : AppSession) (delete_or_error : Bool)
      → change_callback_call a delete_or_error (store_session a t c)
        ≡ ok (
            told_of
              (change_call t (if delete_or_error then none else some a))
              (store_session a t c))
  unfolding change_callback_call deref_session
  callback-told t delete_or_error = rw (alive, ==_self a) refl

  pub told_self :
      (delete_or_error : Bool)
      → change_callback_call a delete_or_error c
        ≡ ok (told_of (change_call (c.app_session a) (if delete_or_error then none else some a)) c)
  unfolding change_callback_call deref_session
  told_self delete_or_error = rw alive refl

  pub informed_self-Changes : Changes a c (told_of (change_call (c.app_session a) (some a)) c)
  unfolding app_session_exists
  informed_self-Changes = record {
    valid = record { owned = v.owned; once = v.once };
    after = some (c.app_session a);
    told = change_call (c.app_session a) (some a);
    next = informed (c.app_session a) (Same-refl (c.app_session a)) refl refl;
    views = own_view;
    calls = refl;
  }
