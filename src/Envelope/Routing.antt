-- ===== src/Envelope/Routing.antt =====
-- The definitions of crates/km43/src/routing.rs, and the session of an answer before Hello.
use km.Prelude.{ℕ, ◌≡◌, ◌≢◌, refl, false, arith, Option, none, some, ◌==◌, if◌then◌else◌}
use km.Envelope.Defs.{Header, SessionId, unassigned, assigned, session_of}

-- `Conn::new`: a `Conn` is a handle that is not 0.
abbrev pub new_conn : ℕ → Option ℕ
new_conn handle = if handle == 0 then none else some handle

pub data About : Type 0 where
  a_client_frame : Header → ℕ → About
  a_frame_that_did_not_parse : ℕ → About
  a_pre_session_request : ℕ → ℕ → About
  a_link_local_frame : About

pub data Route : Type 0 where
  to_client : ℕ → Route
  stays_on_the_link : Route

pub record Addressed : Type 0 where
  pub session : SessionId
  pub req_id : ℕ
  pub route : Route

-- `About::addressed`.
unfoldable pub addressed : About → Addressed
addressed (a_client_frame header conn) = record {
  session = header.session;
  req_id = header.req_id;
  route = to_client conn;
}
addressed (a_frame_that_did_not_parse conn) = record {
  session = unassigned;
  req_id = 0;
  route = to_client conn;
}
addressed (a_pre_session_request conn req_id) = record {
  session = session_of conn;
  req_id = req_id;
  route = to_client conn;
}
addressed a_link_local_frame = record {
  session = unassigned;
  req_id = 0;
  route = stays_on_the_link;
}

-- An answer before Hello bears the handle of its connection as session, which differs from the
-- session of an answer to a frame that did not parse.
pub addressed_before_hello :
    (handle conn req_id : ℕ)
    → new_conn handle ≡ some conn
    → ((addressed (a_pre_session_request conn req_id)).session ≡ assigned handle)
      × ((addressed (a_pre_session_request conn req_id)).session
          ≢ (addressed (a_frame_that_did_not_parse conn)).session)
unfolding addressed
addressed_before_hello handle conn req_id e =
    let same : handle ≡ conn = ground arith in
    let some_conn : (conn == 0) ≡ false = ground arith in rw (same, some_conn) (refl, ground arith)
