-- ===== src/Dns/Aimd/Deltas.antt =====
-- What the reader of the counters reports.
use mailclear.Base.{◌+◌, ◌≤◌, ◌≡◌, arith}
use mailclear.Dns.Aimd.{Counters, Reader, total_of, read_rate}

-- counters only grow
pub record Grows (m m' : Counters) : Type 0 where
  pub ok : m.ok ≤ m'.ok
  pub nxdomain : m.nxdomain ≤ m'.nxdomain
  pub timeout : m.timeout ≤ m'.timeout
  pub servfail : m.servfail ≤ m'.servfail
  pub error : m.error ≤ m'.error

abbrev pub reader_at : Counters → Reader
reader_at m = (read_rate m (record { last_total = 0; last_errors = 0 })).0

-- After a call at the counters `m`, the next call at later counters reports the queries in between
-- and the timeouts among them, so the timeouts never exceed the queries.
pub read_rate_between :
    (m m' : Counters) (r : Reader)
    → Grows m m'
    → let (_, total, errors) = read_rate m' (read_rate m r).0 in
      (total_of m + total ≡ total_of m') × (m.timeout + errors ≡ m'.timeout) × (errors ≤ total)
unfolding read_rate
read_rate_between m m' r g = ground arith
