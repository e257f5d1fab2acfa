-- ===== src/Browser/Location.antt =====
-- The page's address and the parsed form of an address.
use agent_os_test.Prelude.{Option, Text}

-- `window.location`
pub record Location : Type 0 where
  pub protocol : Text
  pub hostname : Text

-- `new URL(url)`: `none` where the constructor throws.
abbrev pub UrlParser : Type 0
UrlParser = Text → Option Location
