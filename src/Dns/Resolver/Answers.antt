-- ===== src/Dns/Resolver/Answers.antt =====
-- What one resolution answers with.
use mathlib.Core.List.{append_assoc, append-nil}
use mailclear.Base.{
  ◌↔◌, ℕ, ◌≤◌, ◌≡◌, ◌≢◌, refl, ap, sym, ◌∙◌, ◌⊎◌, inl, inr, true, List, [], ◌∷◌, ◌++◌, none, ltb,
  leb, ◌==◌, if◌then◌else◌, All, Bool-cases, arith,
}
use mailclear.Text.{Text, trim_suffix}
use mailclear.Dns.Types.{DnsError, MxRecord, MxStatus, Answer, found, failed}
use mailclear.Dns.Client.{Rr, Message}
use mailclear.Dns.Resolver.{
  Qtype, collect_mx, insert_mx, sort_mx, fallback_a, fallback_error, fallback_found, mark_no_mx,
  on_answer, on_failure, resolve_mx, is_cacheable, err_from_status, new_result,
}

-- the mail servers of an answer section, in order
abbrev pub servers : List Rr → List MxRecord
servers [] = []
servers (Rr.mx host priority _ ∷ rest) =
    record { host = trim_suffix b'.' host; priority = priority } ∷ servers rest
servers (Rr.a _ _ ∷ rest) = servers rest
servers (Rr.another _ ∷ rest) = servers rest

-- the records of one priority
abbrev pub of_priority : ℕ → List MxRecord → List MxRecord
of_priority p [] = []
of_priority p (x ∷ xs) = if x.priority == p then x ∷ of_priority p xs else of_priority p xs

abbrev pub Sorted : List MxRecord → Type 0
Sorted [] = Unit
Sorted (x ∷ xs) = All (λ y. x.priority ≤ y.priority) xs × Sorted xs

-- no mail server of the section lives for less
abbrev pub IsLeast : ℕ → List Rr → Type 0
IsLeast n [] = Unit
IsLeast n (Rr.mx _ _ t ∷ rest) = (n ≤ t) × IsLeast n rest
IsLeast n (Rr.a _ _ ∷ rest) = IsLeast n rest
IsLeast n (Rr.another _ ∷ rest) = IsLeast n rest

insert_mx-All :
    (n : ℕ) (x : MxRecord) (ys : List MxRecord)
    → n ≤ x.priority
    → All (λ y. n ≤ y.priority) ys
    → All (λ y. n ≤ y.priority) (insert_mx x ys)
unfolding insert_mx
insert_mx-All n x [] le all = (le, tt)
insert_mx-All n x (y ∷ ys) le all = let rest = insert_mx-All n x ys le all.1 in ground arith

All-weaken :
    (n k : ℕ) (ys : List MxRecord)
    → n ≤ k
    → All (λ y. k ≤ y.priority) ys
    → All (λ y. n ≤ y.priority) ys
All-weaken n k [] le all = tt
All-weaken n k (y ∷ ys) le all = (omega (arith, all.0), All-weaken n k ys le all.1)

insert_mx-Sorted : (x : MxRecord) (ys : List MxRecord) → Sorted ys → Sorted (insert_mx x ys)
unfolding insert_mx
insert_mx-Sorted x [] h = (tt, tt)
insert_mx-Sorted x (y ∷ ys) h = elim (Bool-cases (leb x.priority y.priority)) [
  | inl e ↦ rw e (((ground arith), All-weaken x.priority y.priority ys (ground arith) h.0), h)
  | inr e ↦ rw e (insert_mx-All y.priority x ys (ground arith) h.0, insert_mx-Sorted x ys h.1)
]

sort_mx-Sorted : (xs : List MxRecord) → Sorted (sort_mx xs)
unfolding sort_mx
sort_mx-Sorted [] = tt
sort_mx-Sorted (x ∷ xs) = insert_mx-Sorted x (sort_mx xs) (sort_mx-Sorted xs)

of_priority-insert_mx :
    (p : ℕ) (x : MxRecord) (ys : List MxRecord)
    → of_priority p (insert_mx x ys) ≡ of_priority p (x ∷ ys)
unfolding insert_mx
of_priority-insert_mx p x [] = refl
of_priority-insert_mx p x (y ∷ ys) = let ih = of_priority-insert_mx p x ys in ground arith

of_priority-sort_mx : (p : ℕ) (xs : List MxRecord) → of_priority p (sort_mx xs) ≡ of_priority p xs
unfolding sort_mx
of_priority-sort_mx p [] = refl
of_priority-sort_mx p (x ∷ xs) =
    of_priority-insert_mx p x (sort_mx xs)
    ∙ ap (λ ys. if x.priority == p then x ∷ ys else ys) (of_priority-sort_mx p xs)

collect_mx-servers :
    (rrs : List Rr) (mxs : List MxRecord) (ttl : ℕ)
    → (collect_mx rrs mxs ttl).0 ≡ mxs ++ servers rrs
unfolding collect_mx
collect_mx-servers [] mxs ttl = sym (append-nil mxs)
collect_mx-servers (Rr.mx h p t ∷ rest) mxs ttl =
    let x : MxRecord = record { host = trim_suffix b'.' h; priority = p } in
    collect_mx-servers rest (mxs ++ (x ∷ [])) (if ltb t ttl then t else ttl)
    ∙ append_assoc mxs (x ∷ []) (servers rest)
collect_mx-servers (Rr.a _ _ ∷ rest) mxs ttl = collect_mx-servers rest mxs ttl
collect_mx-servers (Rr.another _ ∷ rest) mxs ttl = collect_mx-servers rest mxs ttl

collect_mx-IsLeast :
    (rrs : List Rr) (mxs : List MxRecord) (ttl : ℕ)
    → ((collect_mx rrs mxs ttl).1 ≤ ttl) × IsLeast (collect_mx rrs mxs ttl).1 rrs
unfolding collect_mx
collect_mx-IsLeast [] mxs ttl = (omega arith, tt)
collect_mx-IsLeast (Rr.mx h p t ∷ rest) mxs ttl =
    let ih =
      collect_mx-IsLeast rest (mxs ++ (record { host = trim_suffix b'.' h; priority = p } ∷ []))
        (if ltb t ttl then t else ttl) in
    ground arith
collect_mx-IsLeast (Rr.a _ _ ∷ rest) mxs ttl = collect_mx-IsLeast rest mxs ttl
collect_mx-IsLeast (Rr.another _ ∷ rest) mxs ttl = collect_mx-IsLeast rest mxs ttl

on_answer-servers :
    (ask : Qtype → Answer Message) (domain : Text) (msg : Message)
    → servers msg.answer ≢ []
    → (on_answer ask domain msg).0 ≡ record (new_result domain) {
      mx = sort_mx (servers msg.answer);
      has_mx = true;
      ttl_seconds = (collect_mx msg.answer [] 3600).1;
    }
unfolding on_answer
on_answer-servers ask domain msg some_server =
    go (servers msg.answer) (collect_mx-servers msg.answer [] 3600) some_server
  where
    go :
        (l : List MxRecord)
        → (collect_mx msg.answer [] 3600).0 ≡ l
        → l ≢ []
        → (on_answer ask domain msg).0 ≡ record (new_result domain) {
          mx = sort_mx l;
          has_mx = true;
          ttl_seconds = (collect_mx msg.answer [] 3600).1;
        }
    go [] e ne = absurd (ne refl)
    go (x ∷ xs) e ne = simp e refl

resolve_mx-found :
    (ttl_neg : ℕ) (ask : Qtype → Answer Message) (domain : Text) (msg : Message)
    → ask Qtype.mx ≡ found msg
    → resolve_mx ttl_neg ask domain ≡ on_answer ask domain msg
unfolding resolve_mx
resolve_mx-found ttl_neg ask domain msg e = ground arith

-- Where the answer lists a mail server, the result is ok and lists those servers, by priority, in the
-- order of the answer where priorities are equal; its time to live is at most an hour and at most that
-- of every listed server.
pub resolve_mx-servers :
    (ttl_neg : ℕ) (ask : Qtype → Answer Message) (domain : Text) (msg : Message)
    → ask Qtype.mx ≡ found msg
    → servers msg.answer ≢ []
    → let res = (resolve_mx ttl_neg ask domain).0 in
      (res.status ≡ MxStatus.ok)
      × (res.has_mx ≡ true)
      × Sorted res.mx
      × ((p : ℕ) → of_priority p res.mx ≡ of_priority p (servers msg.answer))
      × (res.ttl_seconds ≤ 3600)
      × IsLeast res.ttl_seconds msg.answer
unfolding new_result
resolve_mx-servers ttl_neg ask domain msg e some_server =
    rw (resolve_mx-found ttl_neg ask domain msg e, on_answer-servers ask domain msg some_server)
      (
        refl,
        refl,
        sort_mx-Sorted (servers msg.answer),
        (λ p. of_priority-sort_mx p (servers msg.answer)),
        (collect_mx-IsLeast msg.answer [] 3600).0,
        (collect_mx-IsLeast msg.answer [] 3600).1,
      )

-- A result is ok exactly where the domain has a mail server or an address.
pub resolve_mx-ok_iff :
    (ttl_neg : ℕ) (ask : Qtype → Answer Message) (domain : Text)
    → let res = (resolve_mx ttl_neg ask domain).0 in
      (res.status ≡ MxStatus.ok) ↔ ((res.has_mx ≡ true) ⊎ (res.has_a ≡ true))
unfolding resolve_mx on_answer on_failure fallback_a fallback_error fallback_found mark_no_mx
    new_result
resolve_mx-ok_iff ttl_neg ask domain = ground arith

-- Where the answer lists no mail server and the query for addresses fails with an error other than a
-- timeout or a server failure, say a refused one, the result is a final `no_mx` without an error,
-- which goes into the cache.
pub resolve_mx-refused :
    (ttl_neg : ℕ) (ask : Qtype → Answer Message) (domain : Text) (msg : Message) (err : DnsError)
    → ask Qtype.mx ≡ found msg
    → servers msg.answer ≡ []
    → ask Qtype.a ≡ failed err
    → err ≢ DnsError.timeout
    → err ≢ DnsError.servfail
    → let res = (resolve_mx ttl_neg ask domain).0 in
      (res.status ≡ MxStatus.no_mx)
      × (is_cacheable res.status ≡ true)
      × (err_from_status res.status ≡ none)
unfolding resolve_mx on_answer fallback_a fallback_error mark_no_mx new_result is_cacheable
    err_from_status
resolve_mx-refused ttl_neg ask domain msg err e nobody f no_timeout no_servfail =
    let nobody' = collect_mx-servers msg.answer [] 3600 ∙ nobody in ground arith
