-- ===== src/Core/Channels.antt =====
-- gnosis_vpn-lib/src/core/mod.rs: requests to root and the channels that wait for their answers.
use gnosis_vpn_client.Prelude.{
  ℕ, ◌+◌, ◌<◌, ◌≡◌, refl, ap, ◌∙◌, Bool, true, false, not, ◌&&◌, ◌==◌, length, List, [], Option,
  none, some, ◌∷◌, arith,
}
use gnosis_vpn_client.Prelude.Maps.{
  lookup, insert, remove, remove-absent, lookup-insert_fresh, lookup-insert_self, lookup-remove,
  lookup-remove_self, KeysBelow, KeysBelow-remove, KeysBelow-mono, KeysBelow-insert,
}
use gnosis_vpn_client.Core.State.{
  Core, Responder, unit, str, duration, Answer, unit_answer, str_answer, duration_answer, send,
  delivered,
}
use gnosis_vpn_client.Core.Requests.{
  RunnerToRoot, lockdown, static_routing, ping_request, u64, on_request_to_root,
  on_response_from_root, deliver,
}

-- The channel of a request.
abbrev pub channel_of : RunnerToRoot → ℕ
channel_of (lockdown ips interface channel) = channel
channel_of (static_routing wg_data ips channel) = channel
channel_of (ping_request options channel) = channel

-- Whether an answer is of the kind that a request asks for.
abbrev pub answers : RunnerToRoot → Answer → Bool
answers (lockdown _ _ _) (unit_answer _) = true
answers (static_routing _ _ _) (str_answer _) = true
answers (ping_request _ _) (duration_answer _) = true
answers _ _ = false

-- What is kept for a request.
abbrev pub responder_of : RunnerToRoot → Responder
responder_of (lockdown ips interface channel) = unit channel
responder_of (static_routing wg_data ips channel) = str channel
responder_of (ping_request options channel) = duration channel

on_request_to_root-responders :
    (req : RunnerToRoot) (c : Core)
    → ((on_request_to_root req c).responders
        ≡ insert c.next_request_id (responder_of req) c.responders)
      × ((on_request_to_root req c).next_request_id ≡ u64 (c.next_request_id + 1))
unfolding on_request_to_root
on_request_to_root-responders (lockdown ips interface channel) c = (refl, refl)
on_request_to_root-responders (static_routing wg_data ips channel) c = (refl, refl)
on_request_to_root-responders (ping_request options channel) c = (refl, refl)

on_request_to_root-lookup :
    (req : RunnerToRoot) (c : Core)
    → lookup c.next_request_id (on_request_to_root req c).responders ≡ some (responder_of req)
on_request_to_root-lookup req c =
    rw (on_request_to_root-responders req c).0
      (lookup-insert_self c.next_request_id (responder_of req) c.responders)

deliver-outbox :
    (req : RunnerToRoot) (answer : Answer) (c : Core)
    → answers req answer ≡ true
    → (deliver (some (responder_of req)) answer c).outbox
      ≡ delivered (channel_of req) answer ∷ c.outbox
unfolding send
deliver-outbox req answer c h = ground arith

deliver-responders :
    (waiting : Option Responder) (answer : Answer) (c : Core)
    → (deliver waiting answer c).responders ≡ c.responders
unfolding send
deliver-responders waiting answer c = ground arith

-- An answer that no one waits for is dropped: nothing is sent, and whoever waits goes on waiting.
pub stale_answer_dropped :
    (id j : ℕ) (answer : Answer) (c : Core)
    → lookup id c.responders ≡ none
    → let d = on_response_from_root id answer c in
      (d.outbox ≡ c.outbox) × (lookup j d.responders ≡ lookup j c.responders)
unfolding on_response_from_root
stale_answer_dropped id j answer c h = rw h (refl, ap (lookup j) (remove-absent id c.responders h))

u64-fits : (n : ℕ) → n + 1 < 18_446_744_073_709_551_616 → u64 (n + 1) ≡ n + 1
u64-fits n h = omega arith

-- Every request that waits has an id below the next one.
abbrev pub IsBelowNext : Core → Type 0
IsBelowNext c = KeysBelow c.next_request_id c.responders

-- As long as the next id fits u64 and every waiting id is below it, a new request takes an id of its
-- own: it takes away no channel that
-- waits, and every waiting id is again below the next.
request_takes_fresh_id :
    (req : RunnerToRoot) (c : Core) (j : ℕ) (r : Responder)
    → IsBelowNext c
    → c.next_request_id + 1 < 18_446_744_073_709_551_616
    → lookup j c.responders ≡ some r
    → (lookup j (on_request_to_root req c).responders ≡ some r)
      × IsBelowNext (on_request_to_root req c)
request_takes_fresh_id req c j r b fits waits =
    let (kept, next) = on_request_to_root-responders req c in
    let n = c.next_request_id in
    (
      ap (lookup j) kept ∙ lookup-insert_fresh n j (responder_of req) r c.responders b waits,
      rw (kept, next, u64-fits n fits)
          (KeysBelow-insert (n + 1) n (responder_of req) c.responders
            (KeysBelow-mono n (n + 1) c.responders (omega arith) b) (omega arith)),
    )

deliver-next :
    (waiting : Option Responder) (answer : Answer) (c : Core)
    → (deliver waiting answer c).next_request_id ≡ c.next_request_id
unfolding send
deliver-next waiting answer c = ground arith

-- What the core exchanges with root: another request, or an answer.
pub data Exchange : Type 0 where
  requested : RunnerToRoot → Exchange
  responded : (id : ℕ) → Answer → Exchange

abbrev pub exchange : List Exchange → Core → Core
exchange [] c = c
exchange (requested req ∷ rest) c = exchange rest (on_request_to_root req c)
exchange (responded id answer ∷ rest) c = exchange rest (on_response_from_root id answer c)

-- No answer is to this id.
abbrev pub leaves_open : List Exchange → ℕ → Bool
leaves_open [] id = true
leaves_open (requested req ∷ rest) id = leaves_open rest id
leaves_open (responded other answer ∷ rest) id = not (other == id) && leaves_open rest id

-- A responder waits, and the ids do not wrap around during the next `n` requests.
abbrev IsWaiting : ℕ → ℕ → Responder → Core → Type 0
IsWaiting n id r c =
    (lookup id c.responders ≡ some r)
    × IsBelowNext c
    × (c.next_request_id + n < 18_446_744_073_709_551_616)

on_request_to_root-IsWaiting :
    (n id : ℕ) (r : Responder) (req : RunnerToRoot) (c : Core)
    → IsWaiting (n + 1) id r c
    → IsWaiting n id r (on_request_to_root req c)
on_request_to_root-IsWaiting n id r req c (waits, below, fits) =
    let fits_one : c.next_request_id + 1 < 18_446_744_073_709_551_616 = omega arith in
    let (kept, again) = request_takes_fresh_id req c id r below fits_one waits in
    let next = (on_request_to_root-responders req c).1 ∙ u64-fits c.next_request_id fits_one in
    (kept, again, omega (arith, next))

on_response_from_root-IsWaiting :
    (n id other : ℕ) (r : Responder) (answer : Answer) (c : Core)
    → (other == id) ≡ false
    → IsWaiting (n + 1) id r c
    → IsWaiting n id r (on_response_from_root other answer c)
unfolding on_response_from_root
on_response_from_root-IsWaiting n id other r answer c differs (waits, below, fits) =
    let c' : Core = record c { responders = remove other c.responders } in
    let same = deliver-responders (lookup other c.responders) answer c' in
    let next = deliver-next (lookup other c.responders) answer c' in
    (
      ap (lookup id) same ∙ lookup-remove other id c.responders ∙ rw differs waits,
      rw (same, next) (KeysBelow-remove c.next_request_id other c.responders below),
      omega (arith, next),
    )

exchange-IsWaiting :
    (between : List Exchange) (id : ℕ) (r : Responder) (c : Core)
    → leaves_open between id ≡ true
    → IsWaiting (length between) id r c
    → IsWaiting 0 id r (exchange between c)
exchange-IsWaiting [] id r c no_answer waiting = waiting
exchange-IsWaiting (requested req ∷ rest) id r c no_answer (waits, below, fits) =
    exchange-IsWaiting rest id r (on_request_to_root req c) no_answer
      (on_request_to_root-IsWaiting (length rest) id r req c (waits, below, omega arith))
exchange-IsWaiting (responded other answer ∷ rest) id r c no_answer (waits, below, fits) =
    exchange-IsWaiting rest id r (on_response_from_root other answer c) (ground (arith, no_answer))
      (on_response_from_root-IsWaiting (length rest) id other r answer c (ground (arith, no_answer))
        (waits, below, omega arith))

-- The answer to a request, under its id and of its kind, goes to the channel of the requester, and a
-- second answer under that id finds no one: however many other requests and answers to other ids the
-- core exchanges with root between the request and its answer, as long as the ids that wait are below
-- the next id and the ids do not wrap around meanwhile.
pub answer_reaches_requester :
    (req : RunnerToRoot) (answer : Answer) (between : List Exchange) (c : Core)
    → answers req answer ≡ true
    → IsBelowNext c
    → c.next_request_id + (length between + 1) < 18_446_744_073_709_551_616
    → leaves_open between c.next_request_id ≡ true
    → let c' = exchange between (on_request_to_root req c) in
      let d = on_response_from_root c.next_request_id answer c' in
      (d.outbox ≡ delivered (channel_of req) answer ∷ c'.outbox)
      × (lookup c.next_request_id d.responders ≡ none)
unfolding on_response_from_root
answer_reaches_requester req answer between c h below fits no_answer =
    let n = c.next_request_id in
    let fits_one : n + 1 < 18_446_744_073_709_551_616 = omega arith in
    let (kept, next) = on_request_to_root-responders req c in
    let asked : IsWaiting (length between) n (responder_of req) (on_request_to_root req c) = (
      on_request_to_root-lookup req c,
      rw (kept, next, u64-fits n fits_one)
          (KeysBelow-insert (n + 1) n (responder_of req) c.responders
            (KeysBelow-mono n (n + 1) c.responders (omega arith) below) (omega arith)),
      omega (arith, next, u64-fits n fits_one),
    ) in
    let c' = exchange between (on_request_to_root req c) in
    let waits =
      (exchange-IsWaiting between n (responder_of req) (on_request_to_root req c) no_answer
        asked).0 in
    let c'' : Core = record c' { responders = remove n c'.responders } in
    (
      rw waits (deliver-outbox req answer c'' h),
      ap (lookup n) (deliver-responders (lookup n c'.responders) answer c'')
          ∙ lookup-remove_self n c'.responders,
    )
