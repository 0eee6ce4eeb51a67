-- ===== src/Strerror.antt =====
-- src/strerror.cpp and include/libstdc/cerrno.h: the error numbers and their messages. Built for the
-- freestanding library, where strerror sets errno.
pub mod Laws
mod Tests
use osdev_libstdc.Base.{
  List, Option, [], get_elem?, if◌then◌else◌, none, not, some, ℕ, ◌>>=◌, ◌||◌, ◌∷◌,
}
use osdev_libstdc.Base.Int.{leb_ℤ, pos, pos_part, ℤ}
use Prim.Native.String.{String}

-- The error numbers with their comments, in the order of cerrno.h.
pub errno_table : List (ℕ × String)
errno_table =
    (1, "Operation not permitted")
    ∷ (2, "No such file or directory")
    ∷ (3, "No such process")
    ∷ (4, "Interrupted system call")
    ∷ (5, "Input/output error")
    ∷ (6, "No such device or address")
    ∷ (7, "Argument list too long")
    ∷ (8, "Exec format error")
    ∷ (9, "Bad file descriptor")
    ∷ (10, "No child processes")
    ∷ (11, "Resource temporarily unavailable")
    ∷ (12, "Cannot allocate memory")
    ∷ (13, "Permission denied")
    ∷ (14, "Bad address")
    ∷ (15, "Block device required")
    ∷ (16, "Device or resource busy")
    ∷ (17, "File exists")
    ∷ (18, "Invalid cross-device link")
    ∷ (19, "No such device")
    ∷ (20, "Not a directory")
    ∷ (21, "Is a directory")
    ∷ (22, "Invalid argument")
    ∷ (23, "Too many open files in system")
    ∷ (24, "Too many open files")
    ∷ (25, "Inappropriate ioctl for device")
    ∷ (26, "Text file busy")
    ∷ (27, "File too large")
    ∷ (28, "No space left on device")
    ∷ (29, "Illegal seek")
    ∷ (30, "Read-only file system")
    ∷ (31, "Too many links")
    ∷ (32, "Broken pipe")
    ∷ (33, "Numerical argument out of domain")
    ∷ (34, "Numerical result out of range")
    ∷ (35, "Resource deadlock avoided")
    ∷ (36, "File name too long")
    ∷ (37, "No locks available")
    ∷ (38, "Function not implemented")
    ∷ (39, "Directory not empty")
    ∷ (40, "Too many levels of symbolic links")
    ∷ (11, "Resource temporarily unavailable")
    ∷ (42, "No message of desired type")
    ∷ (43, "Identifier removed")
    ∷ (44, "Channel number out of range")
    ∷ (45, "Level 2 not synchronized")
    ∷ (46, "Level 3 halted")
    ∷ (47, "Level 3 reset")
    ∷ (48, "Link number out of range")
    ∷ (49, "Protocol driver not attached")
    ∷ (50, "No CSI structure available")
    ∷ (51, "Level 2 halted")
    ∷ (52, "Invalid exchange")
    ∷ (53, "Invalid request descriptor")
    ∷ (54, "Exchange full")
    ∷ (55, "No anode")
    ∷ (56, "Invalid request code")
    ∷ (57, "Invalid slot")
    ∷ (35, "Resource deadlock avoided")
    ∷ (59, "Bad font file format")
    ∷ (60, "Device not a stream")
    ∷ (61, "No data available")
    ∷ (62, "Timer expired")
    ∷ (63, "Out of streams resources")
    ∷ (64, "Machine is not on the network")
    ∷ (65, "Package not installed")
    ∷ (66, "Object is remote")
    ∷ (67, "Link has been severed")
    ∷ (68, "Advertise error")
    ∷ (69, "Srmount error")
    ∷ (70, "Communication error on send")
    ∷ (71, "Protocol error")
    ∷ (72, "Multihop attempted")
    ∷ (73, "RFS specific error")
    ∷ (74, "Bad message")
    ∷ (75, "Value too large for defined data type")
    ∷ (76, "Name not unique on network")
    ∷ (77, "File descriptor in bad state")
    ∷ (78, "Remote address changed")
    ∷ (79, "Can not access a needed shared library")
    ∷ (80, "Accessing a corrupted shared library")
    ∷ (81, ".lib section in a.out corrupted")
    ∷ (82, "Attempting to link in too many shared libraries")
    ∷ (83, "Cannot exec a shared library directly")
    ∷ (84, "Invalid or incomplete multibyte or wide character")
    ∷ (85, "Interrupted system call should be restarted")
    ∷ (86, "Streams pipe error")
    ∷ (87, "Too many users")
    ∷ (88, "Socket operation on non-socket")
    ∷ (89, "Destination address required")
    ∷ (90, "Message too long")
    ∷ (91, "Protocol wrong type for socket")
    ∷ (92, "Protocol not available")
    ∷ (93, "Protocol not supported")
    ∷ (94, "Socket type not supported")
    ∷ (95, "Operation not supported")
    ∷ (96, "Protocol family not supported")
    ∷ (97, "Address family not supported by protocol")
    ∷ (98, "Address already in use")
    ∷ (99, "Cannot assign requested address")
    ∷ (100, "Network is down")
    ∷ (101, "Network is unreachable")
    ∷ (102, "Network dropped connection on reset")
    ∷ (103, "Software caused connection abort")
    ∷ (104, "Connection reset by peer")
    ∷ (105, "No buffer space available")
    ∷ (106, "Transport endpoint is already connected")
    ∷ (107, "Transport endpoint is not connected")
    ∷ (108, "Cannot send after transport endpoint shutdown")
    ∷ (109, "Too many references: cannot splice")
    ∷ (110, "Connection timed out")
    ∷ (111, "Connection refused")
    ∷ (112, "Host is down")
    ∷ (113, "No route to host")
    ∷ (114, "Operation already in progress")
    ∷ (115, "Operation now in progress")
    ∷ (116, "Stale file handle")
    ∷ (117, "Structure needs cleaning")
    ∷ (118, "Not a XENIX named type file")
    ∷ (119, "No XENIX semaphores available")
    ∷ (120, "Is a named type file")
    ∷ (121, "Remote I/O error")
    ∷ (122, "Disk quota exceeded")
    ∷ (123, "No medium found")
    ∷ (124, "Wrong medium type")
    ∷ (125, "Operation canceled")
    ∷ (126, "Required key not available")
    ∷ (127, "Key has expired")
    ∷ (128, "Key has been revoked")
    ∷ (129, "Key was rejected by service")
    ∷ (130, "Owner died")
    ∷ (131, "State not recoverable")
    ∷ (132, "Operation not possible due to RF-kill")
    ∷ (133, "Memory page has hardware error")
    ∷ (95, "Operation not supported")
    ∷ []

abbrev pub einval : ℕ
einval = 22

abbrev pub enotsup : ℕ
enotsup = 95

-- kErrorStrings
pub error_strings : List String
error_strings =
    "Success" ∷ "Operation not permitted" ∷ "No such file or directory" ∷ "No such process"
    ∷ "Interrupted system call" ∷ "Input/output error" ∷ "No such device or address"
    ∷ "Argument list too long" ∷ "Exec format error" ∷ "Bad file descriptor" ∷ "No child processes"
    ∷ "Resource temporarily unavailable" ∷ "Cannot allocate memory" ∷ "Permission denied"
    ∷ "Bad address" ∷ "Block device required" ∷ "Device or resource busy" ∷ "File exists"
    ∷ "Invalid cross-device link" ∷ "No such device" ∷ "Not a directory" ∷ "Is a directory"
    ∷ "Invalid argument" ∷ "Too many open files in system" ∷ "Too many open files"
    ∷ "Inappropriate ioctl for device" ∷ "Text file busy" ∷ "File too large"
    ∷ "No space left on device" ∷ "Illegal seek" ∷ "Read-only file system" ∷ "Too many links"
    ∷ "Broken pipe" ∷ "Numerical argument out of domain" ∷ "Numerical result out of range"
    ∷ "Resource deadlock avoided" ∷ "File name too long" ∷ "No locks available"
    ∷ "Function not implemented" ∷ "Directory not empty" ∷ "Too many levels of symbolic links"
    ∷ "Resource temporarily unavailable" ∷ "No message of desired type" ∷ "Identifier removed"
    ∷ "Channel number out of range" ∷ "Level 2 not synchronized" ∷ "Level 3 halted"
    ∷ "Level 3 reset" ∷ "Link number out of range" ∷ "Protocol driver not attached"
    ∷ "No CSI structure available" ∷ "Level 2 halted" ∷ "Invalid exchange"
    ∷ "Invalid request descriptor" ∷ "Exchange full" ∷ "No anode" ∷ "Invalid request code"
    ∷ "Invalid slot" ∷ "Resource deadlock avoided" ∷ "Bad font file format" ∷ "Device not a stream"
    ∷ "No data available" ∷ "Timer expired" ∷ "Out of streams resources"
    ∷ "Machine is not on the network" ∷ "Package not installed" ∷ "Object is remote"
    ∷ "Link has been severed" ∷ "Advertise error" ∷ "Srmount error" ∷ "Communication error on send"
    ∷ "Protocol error" ∷ "Multihop attempted" ∷ "RFS specific error" ∷ "Bad message"
    ∷ "Value too large for defined data type" ∷ "Name not unique on network"
    ∷ "File descriptor in bad state" ∷ "Remote address changed"
    ∷ "Can not access a needed shared library" ∷ "Accessing a corrupted shared library"
    ∷ ".lib section in a.out corrupted" ∷ "Attempting to link in too many shared libraries"
    ∷ "Cannot exec a shared library directly" ∷ "Invalid or incomplete multibyte or wide character"
    ∷ "Interrupted system call should be restarted" ∷ "Streams pipe error" ∷ "Too many users"
    ∷ "Socket operation on non-socket" ∷ "Destination address required" ∷ "Message too long"
    ∷ "Protocol wrong type for socket" ∷ "Protocol not available" ∷ "Protocol not supported"
    ∷ "Socket type not supported" ∷ "Operation not supported" ∷ "Protocol family not supported"
    ∷ "Address family not supported by protocol" ∷ "Address already in use"
    ∷ "Cannot assign requested address" ∷ "Network is down" ∷ "Network is unreachable"
    ∷ "Network dropped connection on reset" ∷ "Software caused connection abort"
    ∷ "Connection reset by peer" ∷ "No buffer space available"
    ∷ "Transport endpoint is already connected" ∷ "Transport endpoint is not connected"
    ∷ "Cannot send after transport endpoint shutdown" ∷ "Too many references: cannot splice"
    ∷ "Connection timed out" ∷ "Connection refused" ∷ "Host is down" ∷ "No route to host"
    ∷ "Operation already in progress" ∷ "Operation now in progress" ∷ "Stale file handle"
    ∷ "Structure needs cleaning" ∷ "Not a XENIX named type file" ∷ "No XENIX semaphores available"
    ∷ "Is a named type file" ∷ "Remote I/O error" ∷ "Disk quota exceeded" ∷ "No medium found"
    ∷ "Wrong medium type" ∷ "Operation canceled" ∷ "Required key not available" ∷ "Key has expired"
    ∷ "Key has been revoked" ∷ "Key was rejected by service" ∷ "Owner died"
    ∷ "State not recoverable" ∷ "Operation not possible due to RF-kill"
    ∷ "Memory page has hardware error" ∷ "Operation not supported" ∷ []

-- The state is errno, and the result null or the message.
pub strerror : (errno : ℤ) → (errnum : ℤ) → Option (ℤ × Option String)
strerror errno errnum =
    if not (leb_ℤ (pos 0) errnum) || not (leb_ℤ errnum (pos enotsup))
    then some (pos einval, none)
    else (get_elem? error_strings (pos_part errnum) >>= λ message. some (errno, some message))
