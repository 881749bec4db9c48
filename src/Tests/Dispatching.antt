-- ===== src/Tests/Dispatching.antt =====
-- A task that is dispatched with a stored request, and the theorem at it.
use fastcgi_container.Base.{ℕ, true, false, none, some, [], ◌∷◌, Bytes, codes}
use fastcgi_container.Request.Serialize.{serialize}
use fastcgi_container.Request.State.{Request}
use fastcgi_container.RequestPool.{
  Component, Handler, State, forward, dispatch_exception, raised, Task,
}
use fastcgi_container.Tests.{sent, target, empty_request}

abbrev date : ℕ → Bytes
date seconds = codes "Thu, 01 Jan 1970 00:00:00 GMT"

-- Every component continues with the stored request at another path.
abbrev pass_on : Component → Handler
pass_on n s = raised (dispatch_exception forward (codes "/next") (some (serialize sent target))) s

abbrev begun : State
begun = record {
  request = empty_request;
  response = record {
    headers_sent = false;
    status = 200;
    attached = true;
    out_headers = [];
    out_cookies = [];
    output = [];
  };
  processed = false;
  text = codes "written";
  handlers = 0 ∷ [];
}

abbrev task : Task
task = record { filters = []; future_handlers = none; dispatches = true; elapsed = 9 }
