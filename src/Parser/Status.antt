-- ===== src/Parser/Status.antt =====
-- `Parser::statusToString`.
use fastcgi_container.Base.{ℕ, ◌==◌, if◌then◌else◌, Bytes, codes}

-- The phrase behind a status code; the cases of the `switch` in its order.
unfoldable pub status_to_string : ℕ → Bytes
status_to_string status =
    if status == 200
    then codes "OK"
    else if status == 201
    then codes "Created"
    else if status == 202
    then codes "Accepted"
    else if status == 203
    then codes "Partial Information"
    else if status == 204
    then codes "No Response"
    else if status == 301
    then codes "Moved"
    else if status == 302
    then codes "Moved Temporarily"
    else if status == 303
    then codes "Method"
    else if status == 304
    then codes "Not Modified"
    else if status == 400
    then codes "Bad request"
    else if status == 401
    then codes "Unauthorized"
    else if status == 402
    then codes "PaymentRequired"
    else if status == 403
    then codes "Forbidden"
    else if status == 404
    then codes "Not found"
    else if status == 405
    then codes "Method not allowed"
    else if status == 500
    then codes "Internal Error"
    else if status == 501
    then codes "Not implemented"
    else if status == 502
    then codes "Bad Gateway"
    else if status == 503
    then codes "Service Unavailable"
    else codes "Unknown status"
