-- ===== src/RequestPool/Dispatched.antt =====
-- A request that a filter or handler dispatches with a stored request, as the request cache gives it.
use fastcgi_container.Base.{ℕ, [], ◌∷◌, Bytes, codes}
use fastcgi_container.DataBuffer.{DataBuffer}
use fastcgi_container.Map.{assign, less_string}
use fastcgi_container.Request.State.{Request}
use fastcgi_container.RequestPool.{State, DispatchType, append, forward}

-- The request under another path, unless that is empty.
abbrev pub under : Bytes → Request → Request
under [] q = q
under (c ∷ url) q = record q { vars = assign less_string (codes "SCRIPT_NAME") (c ∷ url) q.vars }

-- What stays of the text that was written before.
abbrev pub text_behind : DispatchType → Bytes → Bytes
text_behind forward text = []
text_behind append text = text

module _ (format_date : ℕ → Bytes) (max_string : ℕ) where
  -- The state that the dispatcher gets: that of the exception, with another request and text, and no
  -- headers for the client.
  abbrev pub handed_on : DispatchType → Bytes → Request → State → State
  handed_on type url q s = record s {
    request = under url q;
    response = record s.response { out_headers = [] };
    text = text_behind type s.text;
  }
