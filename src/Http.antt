-- ===== src/Http.antt =====
-- What the HTTP handlers of the program have in common: a status and a body, and the requests to the
-- agent of a sandbox. A request body that does not decode is `none`.
use gitvm.Base.{ℕ, String}

pub record Response (B : Type 0) : Type 0 where
  pub status : ℕ
  pub body : B

abbrev pub respond : {B : Type 0} → ℕ → B → Response B
respond status body = record { status = status; body = body }

-- A request that is passed on to the agent of a sandbox: method, URL and body.
pub record AgentRequest : Type 0 where
  pub method : String
  pub url : String
  pub body : String

pub record AgentAnswer : Type 0 where
  pub status : ℕ
  pub body : String
