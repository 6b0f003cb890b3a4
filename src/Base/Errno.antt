-- ===== src/Base/Errno.antt =====
-- The error codes that the program returns.
use lustre_tools.Base.Int.{ℤ, pos, negsuc}

abbrev pub success : ℤ
success = pos 0

abbrev pub eperm : ℤ
eperm = negsuc 0

abbrev pub enoent : ℤ
enoent = negsuc 1

abbrev pub enomem : ℤ
enomem = negsuc 11

abbrev pub efault : ℤ
efault = negsuc 13

abbrev pub eexist : ℤ
eexist = negsuc 16

abbrev pub enodev : ℤ
enodev = negsuc 18

abbrev pub einval : ℤ
einval = negsuc 21

abbrev pub erange : ℤ
erange = negsuc 33

abbrev pub eintr : ℤ
eintr = negsuc 3

abbrev pub eproto : ℤ
eproto = negsuc 70

abbrev pub etimedout : ℤ
etimedout = negsuc 109

abbrev pub edquot : ℤ
edquot = negsuc 121

abbrev pub erestartsys : ℤ
erestartsys = negsuc 511
