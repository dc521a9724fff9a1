-- ===== src/Web/Location.antt =====
-- What `useLocation` of the package `react-router` tells of the address that is open.
use linktheca.Prelude.{String}

pub record Location : Type 0 where
  pub pathname : String
  pub search : String
  pub hash : String

-- The location after `navigate(pathname)`.
abbrev pub at : String → Location
at pathname = record { pathname = pathname; search = ""; hash = "" }
