-- ===== src/Pcf/Context/Listed.antt =====
-- Which app sessions the context lists, and what the operations on one of them do to the list.
use rt_5gc_service_consumers.Common.{
  ℕ, true, not, ◌&&◌, List, [], ◌∷◌, Option, none, some, ◌==◌, if◌then◌else◌, has, remove, Distinct,
  has-remove_ne, has-remove_self, remove-Distinct, ◌≡◌, refl, sym, ap, ◌∙◌, subst, ==_self, arith,
  Bool-cases, inl, inr, ==_iff,
}
use rt_5gc_service_consumers.Pcf.Context.{
  AppSession, PcfContext, store_session, listed_in, app_session_exists,
}

-- Each app session of a PCF session is one, belongs to it, and is in its list once.
pub record IsValid (c : PcfContext) : Type 0 where
  pub owned :
      (p a : ℕ)
      → has p c.pcf_sessions ≡ true
      → has a (c.pcf_app_sessions p) ≡ true
      → (c.live a ≡ true) × ((c.app_session a).pcf_session ≡ p)
  pub once : (p : ℕ) → has p c.pcf_sessions ≡ true → Distinct (c.pcf_app_sessions p)

-- What the context says of an address.
abbrev pub view : PcfContext → ℕ → Option AppSession
view c a = if app_session_exists a c then some (c.app_session a) else none

pub listed_in-has :
    (f : ℕ → List ℕ) (l : List ℕ) (a : ℕ)
    → listed_in f l a ≡ true
    → (p : ℕ) × (has p l ≡ true) × (has a (f p) ≡ true)
listed_in-has f [] a h = cc
listed_in-has f (p ∷ l) a h = elim (Bool-cases (has a (f p))) [
  | inl e ↦ (p, ground arith, e)
  | inr e ↦ let (q, m, n) = listed_in-has f l a (ground (arith, h, e)) in (q, ground (arith, m), n)
]

pub has-listed_in :
    (f : ℕ → List ℕ) (l : List ℕ) (p a : ℕ)
    → has p l ≡ true
    → has a (f p) ≡ true
    → listed_in f l a ≡ true
has-listed_in f [] p a h m = cc
has-listed_in f (q ∷ l) p a h m =
    let same : (q == p) ≡ true → f q ≡ f p = λ e. ap f ((==_iff q p).0 e) in
    elim (Bool-cases (q == p)) [
      | inl e ↦ rw (same e, m) refl
      | inr e ↦ ground (arith, e, h, has-listed_in f l p a)
    ]

pub listed_in-cong :
    (f g : ℕ → List ℕ) (l : List ℕ) (a : ℕ)
    → ((p : ℕ) → has a (f p) ≡ has a (g p))
    → listed_in f l a ≡ listed_in g l a
listed_in-cong f g [] a h = refl
listed_in-cong f g (p ∷ l) a h = rw (h p, listed_in-cong f g l a h) refl

-- The PCF session of an app session that the context lists.
pub exists-owner :
    (a : ℕ) (c : PcfContext)
    → IsValid c
    → app_session_exists a c ≡ true
    → (has ((c.app_session a).pcf_session) c.pcf_sessions ≡ true)
      × (has a (c.pcf_app_sessions ((c.app_session a).pcf_session)) ≡ true)
      × (c.live a ≡ true)
unfolding app_session_exists
exists-owner a c v e =
    let (p, m, n) = listed_in-has c.pcf_app_sessions c.pcf_sessions a e in
    let (alive, owner) = v.owned p a m n in
    (
      subst (λ q. has q c.pcf_sessions ≡ true) (sym owner) m,
      subst (λ q. has a (c.pcf_app_sessions q) ≡ true) (sym owner) n,
      alive,
    )

pub store-IsValid :
    (a : ℕ) (t : AppSession) (c : PcfContext)
    → IsValid c
    → t.pcf_session ≡ (c.app_session a).pcf_session
    → IsValid (store_session a t c)
store-IsValid a t c v e = record {
  owned = λ p b m n.
      let same : (b == a) ≡ true → (c.app_session b).pcf_session ≡ (c.app_session a).pcf_session =
        λ h. ap (λ x. (c.app_session x).pcf_session) ((==_iff b a).0 h) in
      ground (arith, v.owned p b m n, e, same);
  once = v.once;
}

pub view-store :
    (a : ℕ) (t : AppSession) (c : PcfContext) (b : ℕ)
    → app_session_exists a c ≡ true
    → view (store_session a t c) b ≡ (if b == a then some t else view c b)
unfolding app_session_exists
view-store a t c b e = elim (Bool-cases (b == a)) [
  | inl h ↦ rw ((==_iff b a).0 h) (rw (e, ==_self a) refl)
  | inr h ↦ rw h refl
]

has-remove : (a b : ℕ) (l : List ℕ) → Distinct l → has b (remove a l) ≡ (not (a == b) && has b l)
has-remove a b l d = elim (Bool-cases (a == b)) [
  | inl h ↦ rw h (rw (← (==_iff a b).0 h) (has-remove_self a l d))
  | inr h ↦ rw h (has-remove_ne a b l (λ e. ground (arith, e, h)))
]

-- Without an app session: its PCF session has the others, none twice.
abbrev pub Without : ℕ → List ℕ → List ℕ → Type 0
Without a l k = Distinct k × ((b : ℕ) → has b k ≡ (not (a == b) && has b l))

pub remove-Without : (a : ℕ) (l : List ℕ) → Distinct l → Without a l (remove a l)
remove-Without a l d = (remove-Distinct a l d, λ b. has-remove a b l d)

pub Without-again : (a : ℕ) (l k : List ℕ) → Without a l k → Without a l (remove a k)
Without-again a l k w =
    (remove-Distinct a k w.0, λ b. has-remove a b k w.0 ∙ rw (w.1 b) (ground arith))
