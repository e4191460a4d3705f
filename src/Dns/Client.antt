-- ===== src/Dns/Client.antt =====
-- internal/dns/client.go. The exchanges with the upstream server are a parameter: the result of the
-- i-th datagram and of the connection, each a message, an error or both, as miekg/dns returns them.
pub mod Origin
use mailclear.Base.{
  ℕ, zero, suc, ◌+◌, Bool, true, false, ◌||◌, ◌==◌, List, ◌++◌, Option, none, some, if◌then◌else◌,
}
use mailclear.Text.{Text, lit, decimal}
use mailclear.Dns.Types.{DnsError, Answer, found, failed}

-- a record of an answer section, with its time to live, a uint32
pub data Rr : Type 0 where
  mx : Text → ℕ → ℕ → Rr
  a : Text → ℕ → Rr
  another : ℕ → Rr

pub record Message : Type 0 where
  pub rcode : ℕ
  pub truncated : Bool
  pub answer : List Rr

-- `context.DeadlineExceeded`, a `net.Error` with its `Timeout()` and `Temporary()`, or another error
pub data NetError : Type 0 where
  deadline : NetError
  net : (timeout temporary : Bool) → Text → NetError
  plain : Text → NetError

pub record Exchange : Type 0 where
  pub resp : Option Message
  pub err : Option NetError

unfoldable pub is_retryable : NetError → Bool
is_retryable NetError.deadline = true
is_retryable (NetError.net timeout temporary _) = if timeout || temporary then true else true
is_retryable (NetError.plain _) = true

unfoldable pub classify_net_err : NetError → DnsError
classify_net_err NetError.deadline = DnsError.timeout
classify_net_err (NetError.net timeout _ m) = if timeout then DnsError.timeout else DnsError.other m
classify_net_err (NetError.plain m) = DnsError.other m

-- the loop over datagrams, `n` of them, the first with index `i`
unfoldable pub ask_udp : (ℕ → Exchange) → (n i : ℕ) → Exchange → Exchange
unfolding is_retryable
ask_udp udp zero i last = last
ask_udp udp (suc n) i last =
    let rest = ask_udp udp n (suc i) (udp i) in
    elim (udp i).err [ none ↦ udp i | some err ↦ if is_retryable err then rest else udp i ]

unfoldable pub is_truncated : Option Message → Bool
is_truncated none = false
is_truncated (some m) = m.truncated

unfoldable pub is_persistent : Option NetError → Bool
unfolding is_retryable
is_persistent none = false
is_persistent (some err) = is_retryable err

-- the connection that follows a truncated answer or an error
unfoldable pub ask_tcp : Exchange → Exchange → Exchange
unfolding is_truncated is_persistent
ask_tcp tcp x =
    if is_truncated x.resp || is_persistent x.err
    then elim tcp.err [
      | none ↦ record { resp = tcp.resp; err = none }
      | some err ↦ elim x.err [ none ↦ record x { err = some err } | some _ ↦ x ]
    ]
    else x

-- the `switch` on the code of the response
unfoldable pub classify_rcode : Message → Answer Message
classify_rcode m =
    if m.rcode == 0
    then found m
    else if m.rcode == 3
    then failed DnsError.nxdomain
    else if m.rcode == 2
    then failed DnsError.servfail
    else if m.rcode == 5
    then failed DnsError.refused
    else failed (DnsError.other (lit "dns rcode: " ++ decimal m.rcode))

-- what `Query` returns once the exchanges are over
unfoldable pub conclude : Exchange → Answer Message
unfolding classify_net_err classify_rcode
conclude x = elim x.err [
  | some err ↦ failed (classify_net_err err)
  | none ↦ elim x.resp [ none ↦ failed DnsError.timeout | some m ↦ classify_rcode m ]
]

-- `Client.Query`
unfoldable pub query : (retries : ℕ) (udp : ℕ → Exchange) (tcp : Exchange) → Answer Message
unfolding ask_udp ask_tcp conclude
query retries udp tcp =
    conclude (ask_tcp tcp (ask_udp udp (suc retries) 0 (record { resp = none; err = none })))
