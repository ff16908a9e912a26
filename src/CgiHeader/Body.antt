-- ===== src/CgiHeader/Body.antt =====
-- What is relayed of a CGI program's output.
use boa.Common.{◌∙◌, ap, ◌-◌, ◌≡◌, ap, ◌∙◌, Bool, true, false, ◌++◌, length, take, Bytes}
use boa.Response.{Server, Reply}
use boa.Response.Files.{send_r_request_ok}
use boa.CgiHeader.{CgiOutput}
use boa.CgiHeader.Ends.{Separator, separator, IsHead}

-- The output of the program is this header, the empty line and this body.
abbrev pub IsOutput : Bytes → Separator → Bytes → CgiOutput → Type 0
IsOutput h sep body p = (p.text ≡ h ++ (separator sep ++ body)) × IsHead h sep body

-- What is relayed of the output at once: without the body and the last line feed for HEAD.
abbrev pub passed : Bool → Bytes → Separator → Bytes → Bytes
passed true h sep body = h ++ take (length (separator sep) - 1) (separator sep)
passed false h sep body = h ++ (separator sep ++ body)

abbrev pub reply_then : Server → CgiOutput → Bytes → Reply
reply_then s p text =
    let reply = send_r_request_ok s p.reply in
    record reply { out = record reply.out { content = reply.out.content ++ text } }
