-- ===== src/Mux/Handler/Choice.antt =====
-- Which packet `get_a_or_v` and its two relatives take.
use mymuxer.Base.{
  ℕ, ◌+◌, ◌≡◌, ◌⊎◌, inl, inr, refl, sym, arith, List, [], ◌∷◌, Bool, true, false, Option, none,
  some, Option-cases, ◌||◌, Bool-cases, ◌&&◌, ◌<◌, ◌^◌, ◌-◌, ◌%◌, ◌≢◌, if◌then◌else◌,
}
use mathlib.Core.Path.{subst}
use mymuxer.Mux.Timing.{dts_after}
use mymuxer.Mux.Timing.Order.{dts_after_order}
use mymuxer.Mux.Buffer
use mymuxer.Mux.Buffer.{TsPacket, OutBuffer}
use mymuxer.Mux.Handler.{
  PacketHandler, pop_v, pop_a, choose, choose_ready, get_a_or_v, get_a_or_v_ready, ready_send,
}

-- The packets waiting, audio and video.
abbrev pub audio : PacketHandler → List TsPacket
audio h = h.out_buff_a.inner

abbrev pub video : PacketHandler → List TsPacket
video h = h.out_buff_v.inner

-- One packet leaves the front of one buffer; `Ok` holds of it and of the other front.
pub data Takes (h h' : PacketHandler) (p : TsPacket) : Type 0 where
  from_audio :
      {rest : List TsPacket}
      → audio h ≡ p ∷ rest
      → audio h' ≡ rest
      → video h' ≡ video h
      → Takes h h' p
  from_video :
      {rest : List TsPacket}
      → video h ≡ p ∷ rest
      → video h' ≡ rest
      → audio h' ≡ audio h
      → Takes h h' p

front_cons :
    (b : OutBuffer) (p : TsPacket)
    → Buffer.front b ≡ some p
    → (rest : List TsPacket) × (b.inner ≡ p ∷ rest)
unfolding Buffer.front
front_cons b p e = ground arith

front_nil : (b : OutBuffer) → Buffer.front b ≡ none → b.inner ≡ []
unfolding Buffer.front
front_nil b e = ground arith

pop_a-Takes :
    (h : PacketHandler) (p : TsPacket)
    → Buffer.front h.out_buff_a ≡ some p
    → ((pop_a h).1 ≡ some p) × Takes h (pop_a h).0 p
unfolding pop_a Buffer.pop_front Buffer.popped
pop_a-Takes h p e =
    let (rest, f) = front_cons h.out_buff_a p e in
    (ground arith, from_audio {rest = rest} f (ground arith) refl)

pop_v-Takes :
    (h : PacketHandler) (p : TsPacket)
    → Buffer.front h.out_buff_v ≡ some p
    → ((pop_v h).1 ≡ some p) × Takes h (pop_v h).0 p
unfolding pop_v Buffer.pop_front Buffer.popped
pop_v-Takes h p e =
    let (rest, f) = front_cons h.out_buff_v p e in
    (ground arith, from_video {rest = rest} f (ground arith) refl)

-- No packet at either front is before `p`.
abbrev pub Earliest : PacketHandler → TsPacket → Type 0
Earliest h p =
    ((q : TsPacket) → Buffer.front h.out_buff_a ≡ some q → dts_after p.dts q.dts ≡ false)
    × ((q : TsPacket) → Buffer.front h.out_buff_v ≡ some q → dts_after p.dts q.dts ≡ false)

-- Stamps of 33 bits at both fronts.
abbrev pub FrontsInRange : PacketHandler → Type 0
FrontsInRange h =
    ((q : TsPacket) → Buffer.front h.out_buff_a ≡ some q → q.dts < 2 ^ 33)
    × ((q : TsPacket) → Buffer.front h.out_buff_v ≡ some q → q.dts < 2 ^ 33)

-- A choice between the fronts: nothing happens, or a packet leaves of which `Good` holds.
abbrev pub Chosen : PacketHandler → (TsPacket → Type 0) → PacketHandler × Option TsPacket → Type 0
Chosen h Good (h', none) = h' ≡ h
Chosen h Good (h', some p) = Takes h h' p × Good p

same_front :
    (b : OutBuffer) (p q : TsPacket) → Buffer.front b ≡ some p → Buffer.front b ≡ some q → p ≡ q
same_front b p q e f = cc

not_after_self : (n : ℕ) → dts_after n n ≡ false
unfolding dts_after
not_after_self n = let e : (n + 2 ^ 64 - n) % 2 ^ 64 ≡ 0 = omega arith in rw e

take_a :
    (h : PacketHandler) (Good : TsPacket → Type 0) (p : TsPacket)
    → Buffer.front h.out_buff_a ≡ some p
    → Good p
    → Chosen h Good (pop_a h)
take_a h Good p e g =
    let (f, t) = pop_a-Takes h p e in subst (λ o. Chosen h Good ((pop_a h).0, o)) (sym f) (t, g)

take_v :
    (h : PacketHandler) (Good : TsPacket → Type 0) (p : TsPacket)
    → Buffer.front h.out_buff_v ≡ some p
    → Good p
    → Chosen h Good (pop_v h)
take_v h Good p e g =
    let (f, t) = pop_v-Takes h p e in subst (λ o. Chosen h Good ((pop_v h).0, o)) (sym f) (t, g)

-- `if b then x else y`, where each branch is a choice.
Chosen-if :
    (h : PacketHandler) (Good : TsPacket → Type 0) (b : Bool)
    (x y : PacketHandler × Option TsPacket)
    → (b ≡ true → Chosen h Good x)
    → (b ≡ false → Chosen h Good y)
    → Chosen h Good (if b then x else y)
Chosen-if h Good true x y f g = f refl
Chosen-if h Good false x y f g = g refl

choose-Earliest :
    (oa ov : Option TsPacket) (h : PacketHandler)
    → Buffer.front h.out_buff_a ≡ oa
    → Buffer.front h.out_buff_v ≡ ov
    → FrontsInRange h
    → Chosen h (Earliest h) (choose oa ov h)
unfolding choose
choose-Earliest (some a) (some v) h ea ev range =
    Chosen-if h (Earliest h) (dts_after a.dts v.dts) (pop_v h) (pop_a h)
      (λ t. take_v h (Earliest h) v ev (
        λ q e.
            rw (← same_front h.out_buff_a a q ea e)
              (after_false v.dts a.dts t (range.1 v ev) (range.0 a ea)),
        λ q e. rw (← same_front h.out_buff_v v q ev e) (not_after_self v.dts),
      ))
      (λ f. take_a h (Earliest h) a ea (
        λ q e. rw (← same_front h.out_buff_a a q ea e) (not_after_self a.dts),
        λ q e. rw (← same_front h.out_buff_v v q ev e) f,
      ))
  where
    after_false : (v a : ℕ) → dts_after a v ≡ true → v < 2 ^ 33 → a < 2 ^ 33 → dts_after v a ≡ false
    after_false v a t hv ha = ground (arith, dts_after_order a v ha hv)
choose-Earliest (some a) none h ea ev range =
    take_a h (Earliest h) a ea
      (λ q e. rw (← same_front h.out_buff_a a q ea e) (not_after_self a.dts), λ q e. cc)
choose-Earliest none (some v) h ea ev range =
    take_v h (Earliest h) v ev
      (λ q e. cc, λ q e. rw (← same_front h.out_buff_v v q ev e) (not_after_self v.dts))
choose-Earliest none none h ea ev range = refl

popped_ne_none :
    (h : PacketHandler)
    → ((p : TsPacket) → Buffer.front h.out_buff_a ≡ some p → (pop_a h).1 ≢ none)
      × ((p : TsPacket) → Buffer.front h.out_buff_v ≡ some p → (pop_v h).1 ≢ none)
popped_ne_none h = (λ p e n. cc ((pop_a-Takes h p e).0), λ p e n. cc ((pop_v-Takes h p e).0))

choose-none :
    (oa ov : Option TsPacket) (h : PacketHandler)
    → Buffer.front h.out_buff_a ≡ oa
    → Buffer.front h.out_buff_v ≡ ov
    → (choose oa ov h).1 ≡ none
    → (oa ≡ none) × (ov ≡ none)
unfolding choose
choose-none (some a) (some v) h ea ev e = elim (Bool-cases (dts_after a.dts v.dts)) [
  | inl t ↦ absurd ((popped_ne_none h).1 v ev (rw t at e))
  | inr f ↦ absurd ((popped_ne_none h).0 a ea (rw f at e))
]
choose-none (some a) none h ea ev e = absurd ((popped_ne_none h).0 a ea e)
choose-none none (some v) h ea ev e = absurd ((popped_ne_none h).1 v ev e)
choose-none none none h ea ev e = (refl, refl)

-- `get_a_or_v` takes nothing only where nothing waits.
pub get_a_or_v-none :
    (h : PacketHandler) → (get_a_or_v h).1 ≡ none → (audio h ≡ []) × (video h ≡ [])
unfolding get_a_or_v
get_a_or_v-none h e =
    let (ea, ev) =
      choose-none (Buffer.front h.out_buff_a) (Buffer.front h.out_buff_v) h refl refl e in
    (front_nil h.out_buff_a ea, front_nil h.out_buff_v ev)

get_a_or_v-Chosen : (h : PacketHandler) → FrontsInRange h → Chosen h (Earliest h) (get_a_or_v h)
unfolding get_a_or_v
get_a_or_v-Chosen h range =
    choose-Earliest (Buffer.front h.out_buff_a) (Buffer.front h.out_buff_v) h refl refl range

-- With stamps of 33 bits at the fronts, `get_a_or_v` takes the front of one buffer, which is after
-- neither front, or takes nothing: then both buffers are empty and nothing changes.
pub get_a_or_v-Earliest :
    (h : PacketHandler)
    → FrontsInRange h
    → Chosen h (Earliest h) (get_a_or_v h)
      × (((get_a_or_v h).1 ≢ none) ⊎ ((audio h ≡ []) × (video h ≡ [])))
get_a_or_v-Earliest h range = (
  get_a_or_v-Chosen h range,
  elim (Option-cases (get_a_or_v h).1) [
    | inl nothing ↦ inr (get_a_or_v-none h nothing)
    | inr (p, taken) ↦ inl (λ nothing. cc)
  ],
)

-- Due: at most the jitter ahead of the clock, or flagged as a discontinuity.
abbrev pub IsDue : PacketHandler → TsPacket → Type 0
IsDue h p = (ready_send h p.dts ≡ true) ⊎ (p.discontinuity ≡ true)

choose_ready-IsDue :
    (oa ov : Option TsPacket) (h : PacketHandler)
    → Buffer.front h.out_buff_a ≡ oa
    → Buffer.front h.out_buff_v ≡ ov
    → Chosen h (IsDue h) (choose_ready oa ov h)
unfolding choose_ready
choose_ready-IsDue (some a) (some v) h ea ev =
    Chosen-if h (IsDue h) (dts_after a.dts v.dts && (ready_send h v.dts || v.discontinuity))
      (pop_v h) (if ready_send h a.dts || a.discontinuity then pop_a h else (h, none))
      (λ t. take_v h (IsDue h) v ev (ground arith))
      (λ _.
        Chosen-if h (IsDue h) (ready_send h a.dts || a.discontinuity) (pop_a h) (h, none)
          (λ t. take_a h (IsDue h) a ea (ground arith)) (λ _. refl))
choose_ready-IsDue (some a) none h ea ev =
    Chosen-if h (IsDue h) (ready_send h a.dts || a.discontinuity) (pop_a h) (h, none)
      (λ t. take_a h (IsDue h) a ea (ground arith)) (λ _. refl)
choose_ready-IsDue none (some v) h ea ev =
    Chosen-if h (IsDue h) (ready_send h v.dts || v.discontinuity) (pop_v h) (h, none)
      (λ t. take_v h (IsDue h) v ev (ground arith)) (λ _. refl)
choose_ready-IsDue none none h ea ev = refl

-- `get_a_or_v_ready` takes the front of a buffer only if it is at most the jitter ahead of the clock
-- or flagged as a discontinuity; where it takes nothing, nothing changes.
pub get_a_or_v_ready-IsDue : (h : PacketHandler) → Chosen h (IsDue h) (get_a_or_v_ready h)
unfolding get_a_or_v_ready
get_a_or_v_ready-IsDue h =
    choose_ready-IsDue (Buffer.front h.out_buff_a) (Buffer.front h.out_buff_v) h refl refl
