-- ===== src/Get.antt =====
-- src/get.c, `init_get` and `get_dir`, for the build with GUNZIP and ACCESS_CONTROL.
--
-- What open(2) and fstat(2) say of a path, what access_allow, modified_since and find_mmap answer
-- and whether the copy from the mapped file meets a SIGBUS are arguments. An allocation does not
-- fail. The call of init_cgi and that of get_cachedir_file are ends of their own. The range nodes are
-- those of Range, the sending those of FileSend.
pub mod Serve
pub mod Header
pub mod Copied
pub mod Whole
use boa.Common.{
  ◌∙◌, sym, ap, ℕ, zero, suc, ◌+◌, ◌-◌, ◌*◌, ◌/◌, ◌%◌, ◌^◌, ◌≤◌, ◌<◌, min, ◌≡◌, refl, sym, ap, ap₂,
  ◌∙◌, ◌≢◌, ◌↔◌, ◌⊎◌, inl, inr, Bool, true, false, not, ◌&&◌, ◌||◌, Option, none, some, List, [],
  ◌∷◌, ◌++◌, map, append-nil, append_assoc, arith, ltb, leb, ◌==◌, if◌then◌else◌, within, ==_iff,
  eq-of-==, ==_refl, Bool-cases, Option-cases, and-eq-true, length, get_or, set, take, drop,
  replicate, length-append, length-set, length-take, length-drop, get_or-set_self, get_or-set_ne,
  All, All-append, Bytes, codes, str_eq, str_eq_iff, starts, suc-ne-zero, check_range,
  check_range-below, bool_eq, bool_eq_iff, member, take-append-drop, get_or-drop, take-length,
  drop_nil, drop-drop, drop_all, drop-append, take_all, take-append, starts_split,
}
use boa.Status.{HttpVersion, http09, http10, http11, Retval}
use boa.Alias.{last_byte}
use boa.Decimal.{simple_itoa}
use boa.Hash.{get_mime_type}
use boa.HttpDate.{Tm}
use boa.Buffer.{Written}
use boa.Response.{
  Server, Reply, crlf, print_texts, squash_ka, http_ver_string, is_http09, is_head,
  print_content_type, print_last_modified, print_http_headers, flush,
}
use boa.Response.Replies.{
  send_r_moved_perm, send_r_bad_request, send_r_forbidden, send_r_not_found, send_r_error,
}
use boa.FileSend.{FileSend}

abbrev pub max_path_length : ℕ
max_path_length = 4096

pub data FileKind : Type 0 where
  regular directory special : FileKind

pub record FileStat : Type 0 where
  pub kind : FileKind
  pub size : ℕ
  pub mtime : Tm

pub data Errno : Type 0 where
  enoent eacces other_error : Errno

pub data OpenAnswer : Type 0 where
  opened : FileStat → OpenAnswer
  failed : Errno → OpenAnswer

pub record System : Type 0 where
  pub open_file : Bytes → OpenAnswer
  pub access_allow : Bytes → Bool
  pub modified_since : Tm → Bytes → Bool
  pub find_mmap : Option Bytes
  pub copies : Bool

pub record Config : Type 0 where
  pub use_lang_rewrite : Bool
  pub server_name : Bytes
  pub server_port : ℕ
  pub no_redirect_port : Bool
  pub directory_index : Option Bytes
  pub dirmaker : Bool
  pub cachedir : Bool

pub record GetRequest : Type 0 where
  pub send : FileSend
  pub pathname : Bytes
  pub host : Option Bytes
  pub if_modified_since : Option Bytes
  pub data_mem : Option Bytes

-- The result, or the call that gives it.
pub data GetEnd : Type 0 where
  returns : Retval → GetEnd
  init_cgi get_cachedir_file : GetEnd

-- The result 0.
abbrev pub ended : GetEnd
ended = returns Retval.finished

abbrev pub change : (Reply → Reply) → GetRequest → GetRequest
change f g = record g { send = record g.send { reply = f g.send.reply } }

abbrev pub replied : (Reply → Reply) → GetRequest → GetRequest × GetEnd
replied f g = (change f g, ended)

-- The tests of the name of a file "foo.ll.html", and its generic form.
unfoldable pub generic_name : Bytes → Option Bytes
generic_name pathname =
    let len = length pathname in
    if ltb len 6 || not (str_eq (drop (len - 5) pathname) (codes ".html"))
    then none
    else if ltb 8 len
        && get_or pathname (len - 8) 0 == b'.'
        && within b'a' b'z' (get_or pathname (len - 7) 0)
        && within b'a' b'z' (get_or pathname (len - 6) 0)
    then some (take (len - 7) pathname ++ codes "html")
    else none

-- "http://host:port/path/"
unfoldable pub redirect_url : Option Bytes → Config → Option Bytes → Bytes → Bytes
redirect_url hsts_header c host request_uri =
    prefix hsts_header
    ++ host_name host
    ++ (if not (c.server_port == 80) && not c.no_redirect_port
        then b':' ∷ simple_itoa c.server_port
        else [])
    ++ request_uri
    ++ b'/' ∷ []
  where
    prefix : Option Bytes → Bytes
    prefix none = codes "http://"
    prefix (some h) = codes "https://"

    host_name : Option Bytes → Bytes
    host_name none = c.server_name
    host_name (some h) = h

-- A header in front of what a program writes: the status line, the headers, and `more`.
unfoldable pub program_header : Server → Written → Bytes → (Reply → Reply) → Reply → Reply
program_header s w reason more r =
    let r = record r { response_status = 200 } in
    if is_http09 r.http_version
    then r
    else flush w (
        more (
          print_http_headers s
            (print_texts (http_ver_string r.http_version ∷ (reason ++ crlf) ∷ []) r)))

-- HEAD ends behind the header.
unfoldable pub then_program : GetRequest → GetRequest × GetEnd
then_program g = (g, if is_head g.send.reply.method then ended else init_cgi)

module _ (s : Server) (w : Written) (c : Config) (y : System) where
  -- The file is a gzipped one.
  unfoldable pub gunzip_file : GetRequest → GetRequest × GetEnd
  gunzip_file g = then_program (
      change
        (program_header s w (codes " 200 OK-GUNZIP")
          (λ r. print_texts (crlf ∷ []) (print_last_modified (print_content_type s r))))
        g)

  -- No index file. The indexer takes care of the rest.
  unfoldable pub list_directory : GetRequest → GetRequest × GetEnd
  list_directory g =
      if c.dirmaker
      then then_program (
          change
            (λ r.
              program_header s w (codes " 200 OK")
                (λ r.
                  print_texts ((codes "Content-Type: text/html" ++ crlf ++ crlf) ∷ [])
                    (print_last_modified r))
                (squash_ka r))
            g)
      else if c.cachedir
      then (g, get_cachedir_file)
      else replied (send_r_forbidden s w) g

  -- The index file is a gzipped one.
  unfoldable pub gunzip_index : Bytes → GetRequest → GetRequest × GetEnd
  gunzip_index directory_index g = then_program (
      change
        (λ r.
          program_header s w (codes " 200 OK-GUNZIP")
            (λ r.
              print_texts
                (codes "Content-Type: "
                  ∷ get_mime_type s.mime_table s.default_type directory_index
                  ∷ (crlf ++ crlf)
                  ∷ [])
                (print_last_modified r))
            (squash_ka r))
        g)
