-- ===== src/Response/Headers.antt =====
-- What `setHeader` and `sendError` leave for the client.
use mathlib.Core.List.{map}
use fastcgi_container.Map.Found.{get-assign}
use fastcgi_container.Base.{
  ℕ, ◌≡◌, refl, true, false, some, [], ◌++◌, append_assoc, arith, Bytes, codes, char_key, to_lower,
}
use fastcgi_container.Map.{assign, less_ci}
use fastcgi_container.Parser.Ends.{normalize_output-ends}
use fastcgi_container.Parser.OutputNames.{normalize_output_header_name}
use fastcgi_container.Response.{
  output_header, Response, ok, crlf, error_page, status_line, send_headers, send_error, cleared,
  emit, header_block, set_header,
}

-- While the headers are not sent, `setHeader` throws for no name and no value, and changes one entry
-- of the headers, whose name `normalizeOutputHeaderName` gives.
pub set_header_ok :
    (name value : Bytes) (r : Response)
    → r.headers_sent ≡ false
    → (key : Bytes) × (normalize_output_header_name name ≡ some key)
      × (set_header name value r
          ≡ ok (record r { out_headers = assign less_ci key value r.out_headers }))
unfolding set_header
set_header_ok name value r h = let (key, e) = normalize_output-ends name in (key, e, rw (h, e) refl)

-- A header that `setHeader` stores is what `outputHeader` gives, in whatever case its normalized name
-- is asked for.
pub output_header-set_header :
    (name key j value : Bytes) (r q : Response)
    → normalize_output_header_name name ≡ some key
    → map (λ c. char_key (to_lower c)) j ≡ map (λ c. char_key (to_lower c)) key
    → set_header name value r ≡ ok q
    → output_header j q ≡ value
unfolding set_header output_header
output_header-set_header name key j value r q n same h =
    let stored : q.out_headers ≡ assign less_ci key value r.out_headers = ground arith in
    rw stored (get-assign (λ c. char_key (to_lower c)) j key same value r.out_headers)

module _ (format_date : ℕ → Bytes) where
  -- Before anything is sent, `sendError` sends the status and the content type and no other header
  -- and no cookie, whatever was set before, and behind them the page that names the status.
  pub send_error_output :
      (status : ℕ) (r : Response)
      → r.headers_sent ≡ false
      → r.attached ≡ true
      → r.output ≡ []
      → (q : Response) × (send_error format_date status r ≡ ok q)
        × (q.headers_sent ≡ true)
        × (q.output
            ≡ codes "Content-type: text/html"
              ++ (crlf
                  ++ (codes "Status: "
                      ++ (status_line status ++ (crlf ++ (crlf ++ error_page status))))))
  unfolding send_error send_headers header_block assign
  send_error_output status r h a o = (
    emit (error_page status) (send_headers format_date (cleared status r)),
    simp h refl,
    simp (h, a) refl,
    simp (h, a, o, append_assoc) refl,
  )
