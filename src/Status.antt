-- ===== src/Status.antt =====
-- src/globals.h: the status of a request.
use boa.Common.{Bool, true, false}

-- enum REQ_STATUS
pub data ReqStatus : Type 0 where
  read_header one_cr one_lf two_cr : ReqStatus
  body_read body_write : ReqStatus
  write : ReqStatus
  pipe_read pipe_write : ReqStatus
  ioshuffle : ReqStatus
  done : ReqStatus
  timed_out : ReqStatus
  dead : ReqStatus

-- status > DONE
abbrev pub is_over : ReqStatus → Bool
is_over timed_out = true
is_over dead = true
is_over _ = false

-- What a handler returns to the main loop: -1, 0 and 1.
pub data Retval : Type 0 where
  blocked finished more : Retval

-- enum HTTP_METHOD
pub data HttpMethod : Type 0 where
  m_get m_head m_put m_post m_delete m_link m_unlink m_move m_trace : HttpMethod

-- enum HTTP_VERSION
pub data HttpVersion : Type 0 where
  http09 http10 http11 : HttpVersion

-- enum KA_STATUS
pub data KaStatus : Type 0 where
  ka_inactive ka_active ka_stopped : KaStatus

-- enum CGI_STATUS
pub data CgiStatus : Type 0 where
  cgi_parse cgi_buffer cgi_done : CgiStatus

-- enum CGI_TYPE
pub data CgiType : Type 0 where
  nph cgi : CgiType

-- enum ALIAS
pub data AliasType : Type 0 where
  alias scriptalias redirect : AliasType
