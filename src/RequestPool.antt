-- ===== src/RequestPool.antt =====
-- `RequestsThreadPool::handleTask` of library/request_thread_pool.cpp: one request through its
-- filters and handlers, with the ends of `RequestStream` of library/stream.cpp and `HttpResponse`'s
-- inclusion of other handlers in library/http_response.cpp.
--
-- The handlers of a task are components, each by a number, and the argument `component` is what
-- `handleRequest` of a component does. A filter is a function on the request's state, which holds
-- what a task changes while it runs. The logger is left out.
pub mod Chain
pub mod Answered
pub mod Dispatched
use fastcgi_container.Base.{
  ℕ, zero, suc, ◌+◌, ◌-◌, ◌*◌, ◌/◌, ◌%◌, ◌^◌, ◌≤◌, ◌<◌, ◌≡◌, refl, sym, ap, ◌∙◌, ◌≢◌, ◌↔◌, ◌⊎◌, inl,
  inr, Bool, true, false, not, ◌&&◌, ◌||◌, Option, none, some, List, [], ◌∷◌, ◌++◌, append-nil,
  append_assoc, arith, ltb, leb, ◌==◌, if◌then◌else◌, ==_iff, ==_refl, Bool-cases, Option-cases,
  table, table-entry, length, take, drop, length-append, length-take, length-drop, take-append-drop,
  take-append, drop-append, replicate, length-replicate, take_front, drop_front, take_all, all, All,
  Bytes, IsBytes, codes, equal, equal_iff, lex_less, char_key, le_bytes, le_value, sub64,
  le_value-le_bytes, sub64_le, decimal, is_space, is_alnum, is_upper, is_lower, is_digit, between,
  to_upper, to_lower,
}
use fastcgi_container.DataBuffer.{DataBuffer}
use fastcgi_container.Map.{assign, less_string}
use fastcgi_container.Request.State.{Request}
use fastcgi_container.Request.Restore as Restore
use fastcgi_container.Response.{
  Response, Result, ok, err, set_status, send_error, send_headers, write,
}

abbrev pub Component : Type 0
Component = ℕ

pub record State : Type 0 where
  pub request : Request
  pub response : Response
  pub processed : Bool
  -- What stands in `response_stream_`.
  pub text : Bytes
  -- `task.handlers`
  pub handlers : List Component

-- `DispatchType`
pub data DispatchType : Type 0 where
  append forward : DispatchType

-- What filters and handlers throw.
pub data Raised : Type 0 where
  dispatch_exception : DispatchType → Bytes → Option DataBuffer → Raised
  http_exception : ℕ → Raised
  exception : Raised

pub data Run : Type 0 where
  done : State → Run
  raised : Raised → State → Run

abbrev pub Handler : Type 0
Handler = State → Run

-- `doFilter` takes what comes next.
abbrev pub Filter : Type 0
Filter = Handler → Handler

abbrev pub then_run : Handler → Run → Run
then_run f (done s) = f s
then_run f (raised e s) = raised e s

module _ (component : Component → Handler) where
  -- The loop over the handlers.
  unfoldable pub run_handlers : List Component → Handler
  run_handlers [] s = done s
  run_handlers (h ∷ hs) s =
      if s.processed then done s else then_run (run_handlers hs) (component h s)

  -- `HttpResponse::includePath`, for the handlers of the path, and `includeComponent`.
  unfoldable pub include_path : List Component → Handler
  unfolding run_handlers
  include_path hs s = run_handlers hs s

  unfoldable pub include_component : Component → Handler
  include_component h s = if s.processed then done s else component h s

-- The function at an index of the vector `filters`, on fuel for the filters behind it.
unfoldable pub filter_at : ℕ → List Filter → ℕ → Handler → Handler
filter_at zero filters k handlers = handlers
filter_at (suc fuel) filters k handlers =
    let next =
      if ltb (suc k) (length filters) then filter_at fuel filters (suc k) handlers else handlers in
    elim (drop k filters) [ [] ↦ handlers | f ∷ fs ↦ f next ]

-- filters[0], or the handlers.
unfoldable pub run_filters : List Filter → Handler → Handler
unfolding filter_at
run_filters filters handlers =
    if ltb 0 (length filters) then filter_at (length filters) filters 0 handlers else handlers

-- What `futureHandlers` gives: handlers, or an exception.
pub data Chosen : Type 0 where
  chosen : List Component → Chosen
  refused : Raised → Chosen

-- NotFound, with its status.
abbrev pub not_found : Raised
not_found = http_exception 404

-- The function that `Server::handleRequest` assigns to `futureHandlers`, for what `getHandler`
-- gives: nothing is the null pointer.
unfoldable pub found_handlers : Option (List Component) → Chosen
found_handlers none = refused not_found
found_handlers (some []) = refused not_found
found_handlers (some (h ∷ hs)) = chosen (h ∷ hs)

pub record Task : Type 0 where
  pub filters : List Filter
  -- `futureHandlers`, where it is set.
  pub future_handlers : Option (State → Chosen)
  -- Whether `dispatch` is set.
  pub dispatches : Bool
  -- now() - start
  pub elapsed : ℕ

-- How `handleTask` ends: the request is handled, or went to the dispatcher again, or an exception
-- reached the thread pool, which counts the task as bad.
pub data Finish : Type 0 where
  finished : State → Finish
  dispatched : State → Finish
  failed : Finish

module _ (component : Component → Handler) where
  -- The handlers of the task, and the loop over them.
  abbrev pub run_chosen : Chosen → Handler
  run_chosen (chosen hs) s = run_handlers component hs (record s { handlers = hs })
  run_chosen (refused e) s = raised e s

  abbrev pub choose : List Component → Option (State → Chosen) → State → Chosen
  choose [] (some future) s = future s
  choose hs future s = chosen hs

  -- The function `handlers`, which stores what `futureHandlers` gives.
  unfoldable pub run_task_handlers : Task → Handler
  unfolding run_handlers
  run_task_handlers t s = run_chosen (choose s.handlers t.future_handlers s) s

abbrev pub set_response : State → Response → State
set_response s r = record s { response = r }

abbrev pub sent : State → Result → Finish
sent s (ok r) = finished (set_response s r)
sent s (err e) = failed

-- The parameters are HttpDateUtils::format and std::string::max_size().
module _ (format_date : ℕ → Bytes) (max_string : ℕ) where
  -- stream.flush(), stream.reset() and sendHeaders().
  unfoldable pub close : State → State
  close s =
      let r =
        if equal s.text [] then s.response else write format_date s.request s.text s.response in
      record s { text = []; response = send_headers format_date r }

  abbrev pub error_sent : ℕ → State → Result → Finish
  error_sent status s (ok r) = sent s (send_error format_date status r)
  error_sent status s (err e) = failed

  -- The catch clauses that answer with an error page.
  unfoldable pub answer_error : ℕ → State → Finish
  unfolding set_status
  answer_error status s = error_sent status s (set_status 500 s.response)

  -- vars_["SCRIPT_NAME"], and the call of the dispatcher.
  abbrev pub dispatch_to : Bytes → State → Finish
  dispatch_to [] s = dispatched s
  dispatch_to (c ∷ url) s = dispatched (record s {
    request = record s.request {
      vars = assign less_string (codes "SCRIPT_NAME") (c ∷ url) s.request.vars;
    };
  })

  -- `restore` clears the headers of the response too.
  abbrev pub after_restore : Bytes → State → Restore.Outcome Request → Finish
  after_restore url s (Restore.ok q) =
      dispatch_to url (record s { request = q; response = record s.response { out_headers = [] } })
  after_restore url s (Restore.err e) = failed

  abbrev pub restored_for : Bytes → Option DataBuffer → State → Finish
  restored_for url none s = dispatch_to url s
  restored_for url (some b) s = after_restore url s (Restore.restore max_string s.request b)

  abbrev pub cleared_for : DispatchType → State → State
  cleared_for forward s = record s { text = [] }
  cleared_for append s = s

  -- The catch clauses, in their order.
  unfoldable pub handle_raised : Task → Raised → State → Finish
  unfolding answer_error assign
  handle_raised t (dispatch_exception type url buffer) s =
      if not t.dispatches
      then failed
      else if s.response.headers_sent
      then failed
      else restored_for url buffer (cleared_for type s)
  handle_raised t (http_exception status) s = answer_error status s
  handle_raised t exception s = answer_error 500 s

  abbrev pub finish_run : Task → Run → Finish
  finish_run t (done s) = finished (close s)
  finish_run t (raised e s) = handle_raised t e s

  unfoldable pub handle_task : (Component → Handler) → ℕ → Task → State → Finish
  unfolding close handle_raised run_filters run_task_handlers
  handle_task component delay t s =
      if ltb t.elapsed delay
      then sent s (send_error format_date 503 s.response)
      else finish_run t
          (run_filters t.filters (run_task_handlers component t) (record s { text = [] }))
