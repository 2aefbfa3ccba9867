-- ===== src/ClientSocket/Closing.antt =====
-- What `Close` of a client's socket leaves in the I/O thread.
use cpp_iocplib.Base.{Option}
use cpp_iocplib.WinSock
use cpp_iocplib.WinSock.{WinSock}
use cpp_iocplib.ClientSocket.Connection.{Connection}
