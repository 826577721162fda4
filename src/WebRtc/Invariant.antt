-- ===== src/WebRtc/Invariant.antt =====
-- The invariant of src/webrtc_server.cpp over every execution.
use native.Mathlib.Nat.{mod-eq_of_lt}
use ioh_robodog_webrtc.Prelude.{
  ℕ, suc, ◌+◌, ◌≤◌, ◌<◌, ◌%◌, ◌^◌, ◌≡◌, ◌≢◌, refl, sym, ◌∙◌, arith, String, false, Option, List, [],
  ◌∷◌, map, length, length-map, if◌then◌else◌, All, text_eq, text_eq_iff, Bool-cases, inl, inr,
  subst,
}
use ioh_robodog_webrtc.Prelude.Int.{ℤ, pos, negsuc, pos_part, leb_ℤ, to_int32, IsInt32}
use ioh_robodog_webrtc.Prelude.Map.{insert}
use ioh_robodog_webrtc.Prelude.Thins.{Thins, Thins-All, Thins-Apart, length-Thins, Apart}
use ioh_robodog_webrtc.Prelude.Results.{Result-cases}
use ioh_robodog_webrtc.Config.{AppConfig}
use ioh_robodog_webrtc.Peer.{Rtc, Peer, construct, setup_connection, fresh_peer}
use ioh_robodog_webrtc.WebRtc.{Server, init, is_full, store_peer, create_peer}
use ioh_robodog_webrtc.WebRtc.PeerId.{generate_peer_id}
use ioh_robodog_webrtc.WebRtc.Ops.{Op, step, run}
use ioh_robodog_webrtc.WebRtc.Idents.{Ident, ident, idents, step-idents}
use ioh_robodog_webrtc.WebRtc.Kept.{IsCreate-cases, step-Keeps}

-- The identities of the peers are in order, for a limit on their number and a bound on the SSRCs.
pub record IsInOrder (limit next : ℕ) (is : List Ident) : Type 0 where
  pub names : Apart (λ i. i.name) is
  pub ssrcs : Apart (λ i. i.ssrc) is
  pub own_name : All (λ i. i.peer_id ≡ i.name) is
  pub below : All (λ i. i.ssrc < next) is
  pub bounded : length is ≤ limit

Thins-IsInOrder :
    {limit next : ℕ} {is js : List Ident}
    → Thins is js
    → IsInOrder limit next js
    → IsInOrder limit next is
Thins-IsInOrder t o = record {
  names = Thins-Apart (λ i. i.name) t o.names;
  ssrcs = Thins-Apart (λ i. i.ssrc) t o.ssrcs;
  own_name = Thins-All (λ i. i.peer_id ≡ i.name) t o.own_name;
  below = Thins-All (λ i. i.ssrc < _) t o.below;
  bounded = omega (arith, length-Thins t, o.bounded);
}

All-below_mono :
    {m n : ℕ} (is : List Ident) → m ≤ n → All (λ i. i.ssrc < m) is → All (λ i. i.ssrc < n) is
All-below_mono [] h a = tt
All-below_mono (i ∷ is) h a = (omega arith, All-below_mono is h a.1)

IsInOrder-widen :
    {limit m n : ℕ} {is : List Ident} → IsInOrder limit m is → m ≤ n → IsInOrder limit n is
IsInOrder-widen {is} o h = record {
  names = o.names;
  ssrcs = o.ssrcs;
  own_name = o.own_name;
  below = All-below_mono is h o.below;
  bounded = o.bounded;
}

-- `insert` on identities.
unfoldable pub put : Ident → List Ident → List Ident
put i [] = i ∷ []
put i (j ∷ js) = if text_eq j.name i.name then i ∷ js else j ∷ put i js

pub map-insert :
    (id : String) (p : Peer) (m : List (String × Peer))
    → map ident (insert id p m) ≡ put (ident (id, p)) (map ident m)
unfolding insert put
map-insert id p [] = refl
map-insert id p ((j, v) ∷ m) = ground (arith, map-insert id p m)

put-All : (P : Ident → Type 0) (i : Ident) (js : List Ident) → P i → All P js → All P (put i js)
unfolding put
put-All P i [] h a = (h, tt)
put-All P i (j ∷ js) h a = ground (arith, put-All P i js h a.1)

pub put-names :
    (i : Ident) (js : List Ident) → Apart (λ k. k.name) js → Apart (λ k. k.name) (put i js)
unfolding put
put-names i [] a = (tt, tt)
put-names i (j ∷ js) a = elim (Bool-cases (text_eq j.name i.name)) [
  | inl e ↦
      let same : j.name ≡ i.name = (text_eq_iff _ _).0 e in
      rw e (subst (λ n. All (λ k. n ≢ k.name) js) same a.0, a.1)
  | inr e ↦ rw e (
    put-All (λ k. j.name ≢ k.name) i js (λ d. ground (arith, (text_eq_iff j.name i.name).1 d)) a.0,
    put-names i js a.1,
  )
]

ne_below : (n : ℕ) (js : List Ident) → All (λ k. k.ssrc < n) js → All (λ k. n ≢ k.ssrc) js
ne_below n [] a = tt
ne_below n (j ∷ js) a = (omega (arith, a.0), ne_below n js a.1)

put-ssrcs :
    (i : Ident) (js : List Ident)
    → All (λ k. k.ssrc < i.ssrc) js
    → Apart (λ k. k.ssrc) js
    → Apart (λ k. k.ssrc) (put i js)
unfolding put
put-ssrcs i [] b a = (tt, tt)
put-ssrcs i (j ∷ js) b a = elim (Bool-cases (text_eq j.name i.name)) [
  | inl e ↦ rw e (ne_below i.ssrc js b.1, a.1)
  | inr e ↦
      rw e (put-All (λ k. j.ssrc ≢ k.ssrc) i js (omega (arith, b.0)) a.0, put-ssrcs i js b.1 a.1)
]

length-put : (i : Ident) (js : List Ident) → length (put i js) ≤ suc (length js)
unfolding put
length-put i [] = omega arith
length-put i (j ∷ js) = ground (arith, length-put i js)

put-IsInOrder :
    {limit next : ℕ} (i : Ident) (js : List Ident)
    → IsInOrder limit next js
    → length js < limit
    → i.peer_id ≡ i.name
    → i.ssrc ≡ next
    → IsInOrder limit (next + 1) (put i js)
put-IsInOrder {limit} {next} i js o room own fresh = record {
  names = put-names i js o.names;
  ssrcs = put-ssrcs i js (subst (λ n. All (λ k. k.ssrc < n) js) (sym fresh) o.below) o.ssrcs;
  own_name = put-All (λ k. k.peer_id ≡ k.name) i js own o.own_name;
  below =
      put-All (λ k. k.ssrc < next + 1) i js (omega arith) (All-below_mono js (omega arith) o.below);
  bounded = omega (arith, length-put i js);
}

-- What holds of a server that serves the configuration c.
pub record IsConsistent (c : AppConfig) (s : Server) : Type 0 where
  pub serves : s.config ≡ c
  pub in_order : IsInOrder (pos_part c.webrtc.max_peers) s.globals.next_ssrc (idents s)

room :
    (n : ℕ) (limit : ℤ)
    → IsInt32 limit
    → n ≤ pos_part limit
    → leb_ℤ limit (to_int32 (pos n)) ≡ false
    → n < pos_part limit
room n (pos k) i b f = ground arith
room n (negsuc k) i b f = ground arith

-- The new server with a peer of these globals, and without.
stored-IsConsistent :
    (rtc : Rtc) (id : String) (cb : Option ℕ) (c : AppConfig) (s : Server)
    → IsInt32 c.webrtc.max_peers
    → s.globals.next_ssrc + 1 < 2 ^ 32
    → IsConsistent c s
    → length s.peers < pos_part c.webrtc.max_peers
    → let t = (store_peer id (construct rtc id s.config.webrtc cb s.globals) s).1 in
      IsConsistent c t × (t.globals.next_ssrc ≤ s.globals.next_ssrc + 1)
unfolding construct store_peer
stored-IsConsistent rtc id cb c s i fits k free =
    let counted : (s.globals.next_ssrc + 1) % 2 ^ 32 ≡ s.globals.next_ssrc + 1 =
      mod-eq_of_lt fits in
    elim (Result-cases
      (rtc.make_connection (setup_connection rtc s.config.webrtc s.globals.next_ssrc))) [
        | inl (u, e) ↦
            rw (e, counted)
              (
                record {
                  serves = k.serves;
                  in_order =
                      subst (IsInOrder _ (s.globals.next_ssrc + 1))
                        (sym (
                          map-insert id (fresh_peer rtc id s.config.webrtc cb s.globals.next_ssrc)
                            s.peers))
                        (put-IsInOrder _ (idents s) k.in_order
                          (omega (arith, length-map ident s.peers)) (unfold fresh_peer in refl)
                          (unfold fresh_peer in refl));
                },
                omega arith,
              )
        | inr (w, e) ↦
            rw (e, counted)
              (
                record { serves = k.serves; in_order = IsInOrder-widen k.in_order (omega arith) },
                omega arith,
              )
      ]

create_peer-IsConsistent :
    (rtc : Rtc) (draw : ℕ) (cb : Option ℕ) (c : AppConfig) (s : Server)
    → IsInt32 c.webrtc.max_peers
    → s.globals.next_ssrc + 1 < 2 ^ 32
    → IsConsistent c s
    → let t = (create_peer rtc draw cb s).1 in
      IsConsistent c t × (t.globals.next_ssrc ≤ s.globals.next_ssrc + 1)
unfolding create_peer
create_peer-IsConsistent rtc draw cb c s i fits k = elim (Bool-cases (is_full s)) [
  | inl full ↦ rw full (k, omega arith)
  | inr free ↦ rw free (
      stored-IsConsistent rtc (generate_peer_id draw) cb c s i fits k (
        room (length s.peers) c.webrtc.max_peers i
          (omega (arith, length-map ident s.peers, k.in_order.bounded))
          (subst (λ d. leb_ℤ d.webrtc.max_peers (to_int32 (pos (length s.peers))) ≡ false) k.serves
            (unfold is_full in free))))
]

pub step-IsConsistent :
    (rtc : Rtc) (o : Op) (c : AppConfig) (s : Server)
    → IsInt32 c.webrtc.max_peers
    → s.globals.next_ssrc + 1 < 2 ^ 32
    → IsConsistent c s
    → IsConsistent c (step rtc o s) × ((step rtc o s).globals.next_ssrc ≤ s.globals.next_ssrc + 1)
unfolding step
step-IsConsistent rtc o c s i fits k = elim (IsCreate-cases o) [
  | inl (draw, cb, e) ↦ rw (e, step) (create_peer-IsConsistent rtc draw cb c s i fits k)
  | inr other ↦
      let (config, next) = step-Keeps rtc o s other in
      (
        record {
          serves = config ∙ k.serves;
          in_order =
              subst (λ n. IsInOrder (pos_part c.webrtc.max_peers) n (idents (step rtc o s)))
                (sym next) (Thins-IsInOrder (step-idents rtc o s other) k.in_order);
        },
        omega arith,
      )
]

run-keeps_order :
    (rtc : Rtc) (os : List Op) (c : AppConfig) (s : Server)
    → IsInt32 c.webrtc.max_peers
    → s.globals.next_ssrc + length os < 2 ^ 32
    → IsConsistent c s
    → IsConsistent c (run rtc os s)
unfolding run
run-keeps_order rtc [] c s i fits k = k
run-keeps_order rtc (o ∷ os) c s i fits k =
    let (k', n) = step-IsConsistent rtc o c s i (omega arith) k in
    run-keeps_order rtc os c (step rtc o s) i (omega arith) k'

-- After any sequence of operations on a new server (short enough for the 32-bit SSRCs not to
-- repeat) the names of the peers are distinct, each peer is kept under its own identifier, no two
-- peers share an SSRC, and there are at most `max_peers` of them, none if that is negative.
pub run-IsConsistent :
    (rtc : Rtc) (os : List Op) (c : AppConfig)
    → IsInt32 c.webrtc.max_peers
    → 42 + length os < 2 ^ 32
    → IsConsistent c (run rtc os (init c))
unfolding init
run-IsConsistent rtc os c i fits = run-keeps_order rtc os c (init c) i fits (record {
  serves = refl;
  in_order = record { names = tt; ssrcs = tt; own_name = tt; below = tt; bounded = omega arith };
})
