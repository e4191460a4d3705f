-- ===== src/Dns/Client/Origin.antt =====
-- Where the answer of `Client.Query` of internal/dns/client.go comes from.
use mailclear.Base.{
  ℕ, zero, suc, ◌+◌, ◌≤◌, ◌<◌, ◌≡◌, refl, ◌⊎◌, inl, inr, subst, sym, ap, ◌==◌, ltb, ◌∙◌, none, some,
  Option-cases, true, false, Bool-cases, arith,
}
use mailclear.Dns.Types.{DnsError, failed}
use mailclear.Dns.Client.{
  Message, NetError, Exchange, ask_udp, ask_tcp, is_retryable, conclude, classify_net_err,
  classify_rcode, query,
}

-- the datagram has an error
abbrev pub Fails : Exchange → Type 0
Fails x = (err : NetError) × (x.err ≡ some err)

-- the exchange is the first of the datagrams `i` to `stop` without an error, or the last of all
pub data IsAsked (udp : ℕ → Exchange) (i stop : ℕ) : Exchange → Type 0 where
  first :
      (k : ℕ)
      → i ≤ k
      → k < stop
      → ((j : ℕ) → i ≤ j → j < k → Fails (udp j))
      → (udp k).err ≡ none
      → IsAsked udp i stop (udp k)
  never :
      (k : ℕ)
      → suc k ≡ stop
      → ((j : ℕ) → i ≤ j → j < stop → Fails (udp j))
      → IsAsked udp i stop (udp k)

retries_all : (err : NetError) → is_retryable err ≡ true
unfolding is_retryable
retries_all NetError.deadline = refl
retries_all (NetError.net timeout temporary _) = ground arith
retries_all (NetError.plain _) = refl

ask_udp-found :
    (udp : ℕ → Exchange) (n i : ℕ) (last : Exchange)
    → (udp i).err ≡ none
    → ask_udp udp (suc n) i last ≡ udp i
unfolding ask_udp
ask_udp-found udp n i last e = ground arith

ask_udp-again :
    (udp : ℕ → Exchange) (n i : ℕ) (last : Exchange) (err : NetError)
    → (udp i).err ≡ some err
    → ask_udp udp (suc n) i last ≡ ask_udp udp n (suc i) (udp i)
unfolding ask_udp
ask_udp-again udp n i last err e = ground (arith, retries_all err)

Fails-from :
    (udp : ℕ → Exchange) (i stop : ℕ)
    → Fails (udp i)
    → ((j : ℕ) → suc i ≤ j → j < stop → Fails (udp j))
    → (j : ℕ) → i ≤ j
    → j < stop
    → Fails (udp j)
Fails-from udp i stop now later j lo hi = elim (Bool-cases (j == i)) [
  | inl e ↦ subst (λ k. Fails (udp k)) (ground arith) now
  | inr e ↦ later j (ground arith) hi
]

IsAsked-earlier :
    (udp : ℕ → Exchange) (i stop : ℕ) (x : Exchange)
    → Fails (udp i)
    → IsAsked udp (suc i) stop x
    → IsAsked udp i stop x
IsAsked-earlier udp i stop _ now (first k lo hi fails ok) =
    first k (omega arith) hi (Fails-from udp i k now fails) ok
IsAsked-earlier udp i stop _ now (never k e fails) = never k e (Fails-from udp i stop now fails)

last-IsAsked :
    (udp : ℕ → Exchange) (i : ℕ)
    → Fails (udp i)
    → IsAsked udp i (suc (i + zero)) (ask_udp udp zero (suc i) (udp i))
unfolding ask_udp
last-IsAsked udp i now =
    never i (omega arith) (λ j lo hi. subst (λ k. Fails (udp k)) (omega arith) now)

ask_udp-IsAsked :
    (udp : ℕ → Exchange) (n i : ℕ) (last : Exchange)
    → IsAsked udp i (suc (i + n)) (ask_udp udp (suc n) i last)
ask_udp-IsAsked udp zero i last = elim (Option-cases (udp i).err) [
  | inl e ↦
      subst (IsAsked udp i (suc (i + zero))) (sym (ask_udp-found udp zero i last e))
        (first i (omega arith) (omega arith) (λ j lo hi. absurd (omega arith)) e)
  | inr (err, e) ↦
      subst (IsAsked udp i (suc (i + zero))) (sym (ask_udp-again udp zero i last err e))
        (last-IsAsked udp i (err, e))
]
ask_udp-IsAsked udp (suc n) i last = elim (Option-cases (udp i).err) [
  | inl e ↦
      subst (IsAsked udp i (suc (i + suc n))) (sym (ask_udp-found udp (suc n) i last e))
        (first i (omega arith) (omega arith) (λ j lo hi. absurd (omega arith)) e)
  | inr (err, e) ↦
      subst (IsAsked udp i (suc (i + suc n))) (sym (ask_udp-again udp (suc n) i last err e)) (
        subst (λ s. IsAsked udp i s (ask_udp udp (suc n) (suc i) (udp i))) (omega arith)
          (IsAsked-earlier udp i (suc (suc i + n)) _ (err, e)
            (ask_udp-IsAsked udp n (suc i) (udp i))))
]

query-eq :
    (retries : ℕ) (udp : ℕ → Exchange) (tcp : Exchange)
    → (x : Exchange) × IsAsked udp 0 (suc retries) x
      × (query retries udp tcp ≡ conclude (ask_tcp tcp x))
unfolding query
query-eq retries udp tcp = (
  ask_udp udp (suc retries) 0 (record { resp = none; err = none }),
  subst (λ s. IsAsked udp 0 s (ask_udp udp (suc retries) 0 (record { resp = none; err = none })))
      (omega arith) (ask_udp-IsAsked udp retries 0 (record { resp = none; err = none })),
  refl,
)

not-Fails : (x : Exchange) → x.err ≡ none → ¬ Fails x
not-Fails x ok (err, h) = absurd (ground arith)

conclude_fallback :
    (tcp x : Exchange) (err : NetError)
    → x.err ≡ some err
    → conclude (ask_tcp tcp x)
      ≡ elim tcp.err [ none ↦ conclude tcp | some _ ↦ failed (classify_net_err err) ]
unfolding conclude ask_tcp
conclude_fallback tcp x err e = elim (Option-cases tcp.err) [
  | inl t ↦ ground (arith, retries_all err)
  | inr (err', t) ↦ ground (arith, retries_all err)
]

module _ (retries : ℕ) (udp : ℕ → Exchange) (tcp : Exchange) where
  -- the first datagram without an error is the one that is read
  first_asked :
      (k : ℕ)
      → k ≤ retries
      → ((j : ℕ) → j < k → Fails (udp j))
      → (udp k).err ≡ none
      → (x : Exchange) → IsAsked udp 0 (suc retries) x
      → x ≡ udp k
  first_asked k le fails ok _ (first k' lo hi fails' ok') = elim (Bool-cases (ltb k' k)) [
    | inl lt ↦ absurd (not-Fails (udp k') ok' (fails k' (ground arith)))
    | inr ge ↦ elim (Bool-cases (ltb k k')) [
      | inl lt ↦ absurd (not-Fails (udp k) ok (fails' k (omega arith) (ground arith)))
      | inr ge' ↦ ap udp (ground arith)
    ]
  ]
  first_asked k le fails ok _ (never k' e fails') =
      absurd (not-Fails (udp k) ok (fails' k (omega arith) (omega arith)))

  -- If the datagrams before the `k`-th fail and the `k`-th brings a whole message without an error,
  -- the answer is what the code of that message says, and no connection is opened for it.
  pub query_first :
      (k : ℕ) (m : Message)
      → k ≤ retries
      → ((j : ℕ) → j < k → Fails (udp j))
      → udp k ≡ record { resp = some m; err = none }
      → m.truncated ≡ false
      → query retries udp tcp ≡ classify_rcode m
  unfolding conclude ask_tcp
  query_first k m le fails e whole =
      let (x, asked, eq) = query-eq retries udp tcp in
      let here : x ≡ udp k = first_asked k le fails (ap (λ y. y.err) e) x asked in
      eq ∙ rw (here ∙ e) (ground arith)

  last_of :
      (x : Exchange)
      → ((j : ℕ) → j ≤ retries → Fails (udp j))
      → IsAsked udp 0 (suc retries) x
      → x ≡ udp retries
  last_of _ fails (first k lo hi _ ok) = absurd (not-Fails (udp k) ok (fails k (omega arith)))
  last_of _ fails (never k e _) = ap udp (omega arith)

  -- If every datagram fails, the answer is that of the connection; if that fails too, it is the class
  -- of the last datagram's error.
  pub query_exhausted :
      (err : NetError)
      → ((j : ℕ) → j ≤ retries → Fails (udp j))
      → (udp retries).err ≡ some err
      → query retries udp tcp
        ≡ elim tcp.err [ none ↦ conclude tcp | some _ ↦ failed (classify_net_err err) ]
  unfolding conclude ask_tcp
  query_exhausted err fails e =
      let (x, asked, eq) = query-eq retries udp tcp in
      eq ∙ conclude_fallback tcp x err (ap (λ y. y.err) (last_of x fails asked) ∙ e)

conclude_nxdomain :
    (x : Exchange)
    → conclude x ≡ failed DnsError.nxdomain
    → (m : Message) × (x.resp ≡ some m) × (m.rcode ≡ 3)
unfolding conclude classify_rcode
conclude_nxdomain x h = ground arith

ask_tcp-resp :
    (tcp x : Exchange) → ((ask_tcp tcp x).resp ≡ x.resp) ⊎ ((ask_tcp tcp x).resp ≡ tcp.resp)
unfolding ask_tcp
ask_tcp-resp tcp x = ground arith

IsAsked-datagram :
    (udp : ℕ → Exchange) (stop : ℕ) (x : Exchange)
    → IsAsked udp 0 stop x
    → (k : ℕ) × (k < stop) × (x ≡ udp k)
IsAsked-datagram udp stop _ (first k lo hi fails ok) = (k, hi, refl)
IsAsked-datagram udp stop _ (never k e fails) = (k, omega arith, refl)

-- A query answers that the domain does not exist only where a message with code 3 came, in one of the
-- first `retries + 1` datagrams or over the connection: no network error is taken for it.
pub query_nxdomain :
    (retries : ℕ) (udp : ℕ → Exchange) (tcp : Exchange)
    → query retries udp tcp ≡ failed DnsError.nxdomain
    → (m : Message) × (m.rcode ≡ 3)
      × ((tcp.resp ≡ some m) ⊎ ((k : ℕ) × (k ≤ retries) × ((udp k).resp ≡ some m)))
query_nxdomain retries udp tcp h =
    let (x, asked, eq) = query-eq retries udp tcp in
    let (k, hi, at) = IsAsked-datagram udp (suc retries) x asked in
    let (m, here, code) = conclude_nxdomain (ask_tcp tcp x) (sym eq ∙ h) in
    (
      m,
      code,
      elim (ask_tcp-resp tcp x) [
        | inl own ↦ inr (k, omega arith, ap (λ y. y.resp) (sym at) ∙ sym own ∙ here)
        | inr other ↦ inl (sym other ∙ here)
      ],
    )
